-- ===== src/Mezo/Words.antt =====
-- A word of 64 hexadecimal digits is below 2**256.
use native.Mathlib.Nat.{pow-suc}
use liqvera.Prelude.Arith.{mul_mono}
use liqvera.Prelude.{
  ℕ, zero, suc, ◌+◌, ◌*◌, ◌^◌, ◌≤◌, ◌<◌, ◌≡◌, refl, subst, Bool, true, false, List, [], ◌∷◌, all,
  All, arith, ok, >>=-eq-ok, ok-injective, both, length, ltb, ◌==◌, ◌&&◌, &&_iff,
}
use liqvera.Python.{Str, codes, drop, starts_with}
use liqvera.Json.{Json, as_text}
use liqvera.Mezo.{require, given, is_hex_digit, hex_digit, hex_value, take, chunks, words_of}

hex_digit-lt : (c : ℕ) → is_hex_digit c ≡ true → hex_digit c < 16
unfolding hex_digit
hex_digit-lt c h = ground arith

carry : (n d b : ℕ) → d < 16 → (n * 16 + d + 1) * b ≤ (n + 1) * (16 * b)
carry n d b h = let k = mul_mono (n * 16 + d + 1) (n * 16 + 16) b (omega arith) in omega (arith, k)

sixteen_pos : (k : ℕ) → 0 < 16 ^ k
sixteen_pos zero = omega arith
sixteen_pos (suc k) = rw (pow-suc 16 k) (omega (arith, sixteen_pos k))

hex_value-lt :
    (w n : ℕ) (s : Str)
    → length s ≤ w
    → all is_hex_digit s ≡ true
    → hex_value n s < (n + 1) * 16 ^ w
unfolding hex_value
hex_value-lt w n [] short h =
    let p = sixteen_pos w in let k = mul_mono 1 (16 ^ w) (n + 1) p in omega (arith, k)
hex_value-lt zero n (c ∷ s) short h = absurd (omega arith)
hex_value-lt (suc w) n (c ∷ s) short h =
    let (here, there) = both h in
    let later = hex_value-lt w (n * 16 + hex_digit c) s (omega arith) there in
    let step = carry n (hex_digit c) (16 ^ w) (hex_digit-lt c here) in
    rw (pow-suc 16 w) (omega (arith, later, step))

abbrev pub uint256 : ℕ
uint256 = 2 ^ 256

take-is_hex_digit :
    (n : ℕ) (s : Str) → all is_hex_digit s ≡ true → all is_hex_digit (take n s) ≡ true
unfolding take
take-is_hex_digit zero s h = refl
take-is_hex_digit (suc n) [] h = refl
take-is_hex_digit (suc n) (c ∷ s) h = (&&_iff _ _).1 ((both h).0, take-is_hex_digit n s (both h).1)

drop-is_hex_digit :
    (n : ℕ) (s : Str) → all is_hex_digit s ≡ true → all is_hex_digit (drop n s) ≡ true
unfolding drop
drop-is_hex_digit zero s h = h
drop-is_hex_digit (suc n) [] h = refl
drop-is_hex_digit (suc n) (c ∷ s) h = drop-is_hex_digit n s (both h).1

length-take : (n : ℕ) (s : Str) → length (take n s) ≤ n
unfolding take
length-take zero s = omega arith
length-take (suc n) [] = omega arith
length-take (suc n) (c ∷ s) = omega (arith, length-take n s)

word-lt : (s : Str) → all is_hex_digit s ≡ true → hex_value 0 (take 64 s) < uint256
word-lt s h =
    omega (arith, hex_value-lt 64 0 (take 64 s) (length-take 64 s) (take-is_hex_digit 64 s h))

chunks-lt : (n : ℕ) (s : Str) → all is_hex_digit s ≡ true → All (λ w. w < uint256) (chunks n s)
unfolding chunks
chunks-lt zero s h = tt
chunks-lt (suc n) s h = (word-lt s h, chunks-lt n (drop 64 s) (drop-is_hex_digit 64 s h))

third : (a b c : Bool) → require (a && b && c) ≡ ok tt → c ≡ true
third true true true h = refl
third true true false h = cc
third true false c h = cc
third false b c h = cc

pub words_of-lt :
    (raw : Json) (n : ℕ) {found : List ℕ} → words_of raw n ≡ ok found → All (λ w. w < uint256) found
unfolding words_of
words_of-lt raw n {found} h =
    let (s, e0, h0) = >>=-eq-ok (given (as_text raw)) _ {last = found} h in
    let (u, e1, h1) =
      >>=-eq-ok
        (require (starts_with (codes "0x") s && ltb 2 (length s) && all is_hex_digit (drop 2 s))) _
        {last = found} h0 in
    let (v, e2, h2) = >>=-eq-ok (require (length s == 2 + 64 * n)) _ {last = found} h1 in
    let hex =
      third (starts_with (codes "0x") s) (ltb 2 (length s)) (all is_hex_digit (drop 2 s)) e1 in
    subst (λ ws. All (λ w. w < uint256) ws) (ok-injective h2) (chunks-lt n (drop 2 s) hex)
