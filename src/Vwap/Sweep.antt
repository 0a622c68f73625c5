-- ===== src/Vwap/Sweep.antt =====
-- The loop of `sweep_depth` on levels that read as positive prices and sizes.
use liqvera.Prelude.{
  ℕ, suc, ◌+◌, ◌-◌, ◌*◌, ◌≤◌, ◌<◌, ◌≡◌, ◌∙◌, List, [], ◌∷◌, some, ok, leb, if◌then◌else◌, arith,
  true, false, Bool-cases, inl, inr, Option,
}
use native.Mathlib.Nat.{add_assoc, suc-add, add-suc, sub-zero, le_refl}
use native.Mathlib.Numerals.{add-one}
use liqvera.Prelude.Int.{ℤ, pos, eqb_ℤ, pos--ℤ-pos, pos-*ℤ-pos, pos-+ℤ-pos}
use liqvera.Python.{Unicode}
use liqvera.Decimal.{from_decimal}
use liqvera.Market.{BookLevel}
use liqvera.Vwap.{Loop, sweep, admissible, taken, take}
use liqvera.Vwap.Fills.{Offer, depth, cost, worst, touched}

-- Each level reads as the scaled price and the scaled, positive size of an offer.
abbrev pub Reads : Unicode → List BookLevel → List Offer → Type 0
Reads u [] [] = Unit
Reads u (level ∷ levels) ((p, s) ∷ offers) =
    (from_decimal u level.price ≡ ok (record { scaled = pos p }))
    × (from_decimal u level.quantity ≡ ok (record { scaled = pos s }))
    × (0 < s)
    × Reads u levels offers
Reads u _ _ = ⊥

abbrev state : ℕ → ℕ → ℕ → Option ℤ → Loop
state r n k w = record { remaining = pos r; notional = pos n; consumed = k; worst = w }

-- One level, read.
sweep-cons :
    (u : Unicode) (l : BookLevel) (levels : List BookLevel) (s : Loop) (p z : ℤ)
    → from_decimal u l.price ≡ ok (record { scaled = p })
    → from_decimal u l.quantity ≡ ok (record { scaled = z })
    → let t = taken s.remaining z in
      let s' = take s p t in
      sweep u (l ∷ levels) s ≡ (
        if eqb_ℤ t (pos 0)
        then sweep u levels s
        else if eqb_ℤ s'.remaining (pos 0)
        then ok s'
        else sweep u levels s')
unfolding sweep admissible
sweep-cons u l levels s p z hp hz = rw (hp, hz)

-- The same, with what is taken and what is left named.
sweep-cons-at :
    (u : Unicode) (l : BookLevel) (levels : List BookLevel) (s s' : Loop) (p z t : ℤ)
    → from_decimal u l.price ≡ ok (record { scaled = p })
    → from_decimal u l.quantity ≡ ok (record { scaled = z })
    → taken s.remaining z ≡ t
    → take s p t ≡ s'
    → sweep u (l ∷ levels) s ≡ (
        if eqb_ℤ t (pos 0)
        then sweep u levels s
        else if eqb_ℤ s'.remaining (pos 0)
        then ok s'
        else sweep u levels s')
sweep-cons-at u l levels s s' p z t hp hz et es =
    rw (← es) (rw (← et) (sweep-cons u l levels s p z hp hz))

taken-all : (r s : ℕ) → leb r s ≡ true → taken (pos r) (pos s) ≡ pos r
taken-all r s h = ground arith

taken-part : (r s : ℕ) → leb r s ≡ false → taken (pos r) (pos s) ≡ pos s
taken-part r s h = ground arith

pos-test : (n : ℕ) → 0 < n → eqb_ℤ (pos n) (pos 0) ≡ false
pos-test n h = ground arith

take-pos :
    (r n k p t : ℕ) (w : Option ℤ)
    → t ≤ r
    → take (state r n k w) (pos p) (pos t) ≡ state (r - t) (n + p * t) (suc k) (some (pos p))
take-pos r n k p t w h = rw (pos--ℤ-pos r t h, pos-*ℤ-pos p t, pos-+ℤ-pos n (p * t))

-- A level that covers what remains ends the loop.
sweep-last :
    (u : Unicode) (l : BookLevel) (levels : List BookLevel) (r n k p s : ℕ) (w : Option ℤ)
    → from_decimal u l.price ≡ ok (record { scaled = pos p })
    → from_decimal u l.quantity ≡ ok (record { scaled = pos s })
    → 0 < r
    → leb r s ≡ true
    → sweep u (l ∷ levels) (state r n k w) ≡ ok (state 0 (n + p * r) (suc k) (some (pos p)))
sweep-last u l levels r n k p s w hp hz pr e =
    let z : r - r ≡ 0 = omega arith in
    let after : take (state r n k w) (pos p) (pos r) ≡ state 0 (n + p * r) (suc k) (some (pos p)) =
      rw z at (take-pos r n k p r w (le_refl r)) in
    sweep-cons-at u l levels (state r n k w) _ (pos p) (pos s) (pos r) hp hz (taken-all r s e) after
    ∙ rw (pos-test r pr)

-- A level that does not is used up, and the loop goes on.
sweep-next :
    (u : Unicode) (l : BookLevel) (levels : List BookLevel) (r n k p s : ℕ) (w : Option ℤ)
    → from_decimal u l.price ≡ ok (record { scaled = pos p })
    → from_decimal u l.quantity ≡ ok (record { scaled = pos s })
    → 0 < s
    → leb r s ≡ false
    → sweep u (l ∷ levels) (state r n k w)
      ≡ sweep u levels (state (r - s) (n + p * s) (suc k) (some (pos p)))
sweep-next u l levels r n k p s w hp hz ps e =
    sweep-cons-at u l levels (state r n k w) _ (pos p) (pos s) (pos s) hp hz (taken-part r s e)
      (take-pos r n k p s w (ground arith))
    ∙ rw (pos-test s ps) (rw (pos-test (r - s) (ground arith)))

-- With depth enough the loop ends with nothing left, the cost added, and the last price used.
pub sweep_filled :
    (u : Unicode) (levels : List BookLevel) (offers : List Offer) (r n k : ℕ) (w : Option ℤ)
    → Reads u levels offers
    → 0 < r
    → r ≤ depth offers
    → sweep u levels (state r n k w)
      ≡ ok (state 0 (n + cost r offers) (k + touched r offers) (some (pos (worst r offers))))
unfolding depth cost worst touched
sweep_filled u [] [] r n k w h p d = absurd (omega arith)
sweep_filled u [] (o ∷ offers) r n k w h p d = absurd h
sweep_filled u (l ∷ levels) [] r n k w h p d = absurd h
sweep_filled u (l ∷ levels) ((p, s) ∷ offers) r n k w (hp, hs, ps, h) pr d =
    elim (Bool-cases (leb r s)) [
      | inl e ↦ rw e (rw (sweep-last u l levels r n k p s w hp hs pr e, add-one k))
      | inr e ↦
          let rest =
            sweep_filled u levels offers (r - s) (n + p * s) (suc k) (some (pos p)) h (ground arith)
              (omega arith) in
          rw e (
            sweep-next u l levels r n k p s w hp hs ps e
            ∙ rest
            ∙ rw (add_assoc n (p * s), suc-add, add-suc))
    ]

-- Without depth enough the loop ends with the rest still wanted.
pub sweep_short :
    (u : Unicode) (levels : List BookLevel) (offers : List Offer) (r n k : ℕ) (w : Option ℤ)
    → Reads u levels offers
    → depth offers < r
    → (n' k' : ℕ) × (w' : Option ℤ) × (sweep u levels (state r n k w)
        ≡ ok (state (r - depth offers) n' k' w'))
unfolding depth sweep
sweep_short u [] [] r n k w h d = (n, k, w, rw (sub-zero r))
sweep_short u [] (o ∷ offers) r n k w h d = absurd h
sweep_short u (l ∷ levels) [] r n k w h d = absurd h
sweep_short u (l ∷ levels) ((p, s) ∷ offers) r n k w (hp, hs, ps, h) d =
    let (n', k', w', e) =
      sweep_short u levels offers (r - s) (n + p * s) (suc k) (some (pos p)) h (omega arith) in
    let same : r - s - depth offers ≡ r - (s + depth offers) = omega arith in
    (n', k', w', sweep-next u l levels r n k p s w hp hs ps (ground arith) ∙ e ∙ rw same)
