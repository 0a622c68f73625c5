-- ===== src/Vwap/Theorems.antt =====
-- What `sweep_depth` returns for a book whose levels read as positive scaled prices and sizes.
use native.Mathlib.Nat.{zero-add, le_refl}
use liqvera.Prelude.{
  ℕ, ◌*◌, ◌≤◌, ◌<◌, ◌≡◌, List, ◌∷◌, none, ok, err, leb, false, arith, ok-injective, ok-ne-err,
  Bool-cases, inl, inr, sym, ap, ◌∙◌, ◌-◌, leb_iff,
}
use liqvera.Prelude.Int.{pos, leb_ℤ, eqb_ℤ, ◌≤ℤ◌, ◌*ℤ◌, pos-*ℤ-pos}
use liqvera.Exact.{scale}
use liqvera.Python.{Unicode}
use liqvera.Reconstruction.Book.{ReconstructedBook}
use liqvera.Vwap.{
  Side, buy, ExecutableFill, sweep_depth, fill_of, levels_of, require_coin_unit_identity,
  depth_rejected,
}
use liqvera.Vwap.Fills.{
  Offer, depth, cost, worst, touched, Fits, total, paid, Rises, cost_ge, cost_le_worst,
}
use liqvera.Vwap.Sweep.{Reads, sweep_filled, sweep_short}
use liqvera.Vwap.Optimal.{cost_optimal}

-- The fill of `q` units from the offers.
abbrev pub expected : ReconstructedBook → Side → ℕ → List Offer → ExecutableFill
expected book side q offers = record {
  side = side;
  envelope_index = book.envelope_index;
  payload_sha256 = book.payload_sha256;
  epoch_id = book.epoch_id;
  requested_quantity = record { numerator = pos q; denominator = scale };
  filled_quantity = record { numerator = pos q; denominator = scale };
  notional_quote = record { numerator = pos (cost q offers); denominator = scale * scale };
  vwap = record { numerator = pos (cost q offers); denominator = scale * q };
  worst_price = record { numerator = pos (worst q offers); denominator = scale };
  consumed_levels = touched q offers;
}

positive-test : (q : ℕ) → 0 < q → leb_ℤ (pos q) (pos 0) ≡ false
positive-test q h = ground arith

remaining-test : (n : ℕ) → 0 < n → eqb_ℤ (pos n) (pos 0) ≡ false
remaining-test n h = ground arith

module _ (u : Unicode) (book : ReconstructedBook) (side : Side) (q : ℕ) (offers : List Offer)
    (positive : 0 < q) (identity : require_coin_unit_identity book.mapping ≡ ok tt)
    (reads : Reads u (levels_of book side) offers) where
  -- For a positive quantity, a book bound to a coin-unit identity with multiplier 1, and levels
  -- that read as positive sizes at natural prices: where the side shows the quantity, the sweep
  -- returns the fill at the cost, the worst price and the number of levels of walking the levels
  -- in order.
  pub sweep_depth-fills :
      q ≤ depth offers
      → sweep_depth u book side (record { scaled = pos q }) ≡ ok (expected book side q offers)
  unfolding sweep_depth fill_of
  sweep_depth-fills h = rw (positive-test q positive) (
      rw identity (
        rw (sweep_filled u (levels_of book side) offers q 0 0 none reads positive h)
          (rw (zero-add (cost q offers), zero-add (touched q offers)))))

  -- For a book bound to a coin-unit identity with multiplier 1, and levels that read as positive
  -- sizes at natural prices: where the side shows less than a positive quantity, the sweep raises
  -- DepthRejected.
  pub sweep_depth-rejects :
      depth offers < q → sweep_depth u book side (record { scaled = pos q }) ≡ err depth_rejected
  unfolding sweep_depth fill_of
  sweep_depth-rejects h =
      let (n, k, w, e) = sweep_short u (levels_of book side) offers q 0 0 none reads h in
      rw (positive-test q positive)
        (rw identity (rw e (rw (remaining-test (q - depth offers) (omega arith), fill_of))))

  -- A fill is the expected one.
  fill-eq-expected :
      {fill : ExecutableFill}
      → sweep_depth u book side (record { scaled = pos q }) ≡ ok fill
      → (q ≤ depth offers) × (expected book side q offers ≡ fill)
  fill-eq-expected {fill} h = elim (Bool-cases (leb q (depth offers))) [
    | inl e ↦
        let d : q ≤ depth offers = (leb_iff q (depth offers)).0 e in
        (d, ok-injective (sym (sweep_depth-fills d) ∙ h))
    | inr e ↦ absurd (ok-ne-err (sym h ∙ sweep_depth-rejects (ground arith)))
  ]

module _ (u : Unicode) (book : ReconstructedBook) (q : ℕ) (offers : List Offer)
    {fill : ExecutableFill} (positive : 0 < q)
    (identity : require_coin_unit_identity book.mapping ≡ ok tt)
    (reads : Reads u book.snapshot.asks offers) (rises : Rises offers)
    (filled : sweep_depth u book buy (record { scaled = pos q }) ≡ ok fill) where
  -- Where the sweep of a buy returned a fill for a positive quantity on a book bound to a coin-
  -- unit identity with multiplier 1, whose asks read as positive sizes at natural prices that do
  -- not fall: no split of the quantity over the asks that takes at most what each shows costs less
  -- than the fill's notional.
  pub sweep_depth-optimal :
      (ts : List ℕ)
      → Fits ts offers
      → total ts ≡ q
      → fill.notional_quote.numerator ≤ℤ pos (paid ts offers)
  sweep_depth-optimal ts fits sum =
      let (d, e) = fill-eq-expected u book buy q offers positive identity reads filled in
      let best = rw sum at (cost_optimal ts offers fits rises) in
      rw (← ap (λ f. f.notional_quote.numerator) e) (omega (arith, best))

  -- Where the sweep of a buy returned a fill for a positive quantity on a book bound to a coin-
  -- unit identity with multiplier 1, whose asks read as positive sizes at natural prices that do
  -- not fall: the notional lies between the first price times the quantity and the fill's worst
  -- price times the quantity.
  pub sweep_depth-between :
      (best size : ℕ) (rest : List Offer)
      → offers ≡ (best, size) ∷ rest
      → (pos (best * q) ≤ℤ fill.notional_quote.numerator)
        × (fill.notional_quote.numerator ≤ℤ fill.worst_price.numerator *ℤ pos q)
  sweep_depth-between best size rest shape =
      let (d, e) = fill-eq-expected u book buy q offers positive identity reads filled in
      let low = cost_ge best q offers d (rw shape (le_refl best, (rw shape at rises).0)) in
      let high = cost_le_worst q offers d rises in
      rw (← e) (omega (arith, low), rw (pos-*ℤ-pos (worst q offers) q) (omega (arith, high)))
