-- ===== src/Verdict/Minutes.antt =====
-- The two counts of verdict.py over the quality minutes: `_complete_utc_days` and
-- `_strict_healthy_minutes`.
use liqvera.Prelude.{
  ℕ, suc, ◌+◌, ◌*◌, ◌≤◌, ◌≡◌, refl, Bool, true, false, ◌||◌, List, [], ◌∷◌, ◌++◌, length, arith,
  Bool-cases, inl, inr, map,
}
use liqvera.Python.{any, str_eq_iff}
use liqvera.Evidence.{QualityMinuteRecord}
use liqvera.Verdict.{
  Covered, add_to_set, cover, cover_all, full_days, complete_utc_days, healthy_from,
  strict_healthy_minutes, minutes_per_day, day_of, minute_of_day, Key, same_key, key_of,
}

-- How many minutes there are in all the sets.
size : Covered → ℕ
size [] = 0
size ((d, minutes) ∷ covered) = length minutes + size covered

add_to_set-length :
    (m : ℕ) (minutes : List ℕ) → length (add_to_set m minutes) ≤ suc (length minutes)
unfolding add_to_set
add_to_set-length m minutes = ground arith

cover-size : (day m : ℕ) (covered : Covered) → size (cover day m covered) ≤ suc (size covered)
unfolding cover size
cover-size day m [] = ground arith
cover-size day m ((d, minutes) ∷ covered) =
    ground (arith, cover-size day m covered, add_to_set-length m minutes)

cover_all-size :
    (q : List QualityMinuteRecord) (covered : Covered)
    → size (cover_all q covered) ≤ length q + size covered
unfolding cover_all
cover_all-size [] covered = ground arith
cover_all-size (r ∷ q) covered =
    let h = cover_all-size q (cover (day_of r) (minute_of_day r) covered) in
    let k = cover-size (day_of r) (minute_of_day r) covered in omega arith

full_days-size : (covered : Covered) → full_days covered * minutes_per_day ≤ size covered
unfolding full_days size
full_days-size [] = ground arith
full_days-size ((d, minutes) ∷ covered) = ground (arith, full_days-size covered)

-- Each complete UTC day takes 1440 records: repeats of a minute do not make a day complete.
pub complete_utc_days-length :
    (q : List QualityMinuteRecord) → complete_utc_days q * minutes_per_day ≤ length q
unfolding complete_utc_days size
complete_utc_days-length q =
    let h = cover_all-size q [] in let k = full_days-size (cover_all q []) in omega arith

same_key-eq : (a b : Key) → same_key a b ≡ true → a ≡ b
same_key-eq (i, s) (j, t) h =
    let e : i ≡ j = ground arith in let f : s ≡ t = (str_eq_iff s t).0 (ground arith) in cc

drop_false : (a b c : Bool) → b ≡ false → (a || (b || c)) ≡ true → (a || c) ≡ true
drop_false true b c e h = refl
drop_false false b c e h = ground (arith, e, h)

-- A key that is known, or is the next one, stays known when the next one is skipped.
known-skip :
    (k x : Key) (seen : List Key) (rest : Bool)
    → any (same_key x) seen ≡ true
    → (any (same_key k) seen || (same_key k x || rest)) ≡ true
    → (any (same_key k) seen || rest) ≡ true
known-skip k x seen rest e h = elim (Bool-cases (same_key k x)) [
  | inl f ↦ rw (same_key-eq k x f, e) refl
  | inr f ↦ drop_false _ _ _ f h
]

or-swap : (a b c : Bool) → (a || (b || c)) ≡ true → ((b || a) || c) ≡ true
or-swap true true c h = refl
or-swap true false c h = refl
or-swap false b c h = ground (arith, h)

repeated :
    (seen : List Key) (n : ℕ) (q : List QualityMinuteRecord) (r : QualityMinuteRecord)
    → (any (same_key (key_of r)) seen || any (same_key (key_of r)) (map key_of q)) ≡ true
    → healthy_from seen n (q ++ r ∷ []) ≡ healthy_from seen n q
unfolding healthy_from
repeated seen n [] r h = ground arith
repeated seen n (x ∷ q) r h = elim (Bool-cases (any (same_key (key_of x)) seen)) [
  | inl e ↦ rw e (repeated seen n q r (known-skip (key_of r) (key_of x) seen _ e h))
  | inr e ↦ rw e (repeated (key_of x ∷ seen) _ q r (or-swap (any (same_key (key_of r)) seen) _ _ h))
]

-- A record at the end of the list whose minute and venue stand in the list already does not change
-- the number of healthy minutes.
pub strict_healthy_minutes-repeat :
    (q : List QualityMinuteRecord) (r : QualityMinuteRecord)
    → any (same_key (key_of r)) (map key_of q) ≡ true
    → strict_healthy_minutes (q ++ r ∷ []) ≡ strict_healthy_minutes q
unfolding strict_healthy_minutes
strict_healthy_minutes-repeat q r h = repeated [] 0 q r h
