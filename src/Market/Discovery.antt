-- ===== src/Market/Discovery.antt =====
-- What `discover_common_markets` returns.
use liqvera.Prelude.{
  not_raised, both, ℕ, suc, ◌≤◌, ◌≡◌, refl, ap, sym, subst, ◌∙◌, Bool, true, false, List, [], ◌∷◌,
  All, All-append, length, leb, leb_iff, ltb, ok, >>=-eq-ok, ok-injective, Bool-cases, inl, inr,
  arith, raise_if,
}
use liqvera.Python.{value_error, Unicode, is_empty, any, str_eq, str_eq_iff, strip}
use liqvera.Market.{InstrumentIdentity}
use liqvera.Market.Venue.{VenueMarket}
use liqvera.Market.Common.{
  CommonMarket, same_identity, str_lt, insert_by, sorted_by, Grouped, add_market, group, common_of,
  discover_common_markets,
}

pub same_identity-eq : (a b : InstrumentIdentity) → same_identity a b ≡ true → a ≡ b
unfolding same_identity
same_identity-eq a b h =
    let (e0, h0) = both h in
    let (e1, h1) = both h0 in
    let (e2, h2) = both h1 in
    let (e3, e4) = both h2 in
    let base = (str_eq_iff a.base_asset b.base_asset).0 e0 in
    let quote = (str_eq_iff a.quote_asset b.quote_asset).0 e1 in
    let product = (str_eq_iff a.product_kind b.product_kind).0 e2 in
    let settlement = (str_eq_iff a.settlement_asset b.settlement_asset).0 e3 in
    let payoff = (str_eq_iff a.payoff_kind b.payoff_kind).0 e4 in
    λ i. record {
      base_asset = base i;
      quote_asset = quote i;
      product_kind = product i;
      settlement_asset = settlement i;
      payoff_kind = payoff i;
    }

-- Markets of one identity, each with its evidence.
pub record IsGroup (u : Unicode) (c : CommonMarket) : Type 0 where
  pub same : All (λ (m : VenueMarket). m.identity ≡ c.identity) c.markets
  pub reviewed :
      All (λ (m : VenueMarket). is_empty (strip u m.equivalence_evidence) ≡ false) c.markets

module _ {ℓ} {A : Type ℓ} (P : A → Type 0) (before : A → A → Bool) where
  insert_by-All : (a : A) (xs : List A) → P a → All P xs → All P (insert_by before a xs)
  unfolding insert_by
  insert_by-All a [] p ps = (p, tt)
  insert_by-All a (x ∷ xs) p (px, ps) = elim (Bool-cases (before x a)) [
    | inl e ↦ rw e (px, insert_by-All a xs p ps)
    | inr e ↦ rw e (p, (px, ps))
  ]

  sorted_by-All : (xs : List A) → All P xs → All P (sorted_by before xs)
  unfolding sorted_by
  sorted_by-All [] ps = tt
  sorted_by-All (a ∷ xs) (p, ps) = insert_by-All a (sorted_by before xs) p (sorted_by-All xs ps)

module _ {ℓ} {A : Type ℓ} (before : A → A → Bool) where
  length-insert_by : (a : A) (xs : List A) → length (insert_by before a xs) ≡ suc (length xs)
  unfolding insert_by
  length-insert_by a [] = refl
  length-insert_by a (x ∷ xs) = elim (Bool-cases (before x a)) [
    | inl e ↦ rw e (ap suc (length-insert_by a xs))
    | inr e ↦ rw e refl
  ]

  length-sorted_by : (xs : List A) → length (sorted_by before xs) ≡ length xs
  unfolding sorted_by
  length-sorted_by [] = refl
  length-sorted_by (a ∷ xs) =
      length-insert_by a (sorted_by before xs) ∙ ap suc (length-sorted_by xs)

module _ (u : Unicode) where
  add_market-All :
      (x : VenueMarket) (grouped : Grouped) {later : Grouped}
      → is_empty (strip u x.equivalence_evidence) ≡ false
      → add_market x grouped ≡ ok later
      → All (IsGroup u) grouped
      → All (IsGroup u) later
  unfolding add_market
  add_market-All x [] known h ps =
      subst (All (IsGroup u)) (ok-injective h)
        (record { same = (refl, tt); reviewed = (known, tt) }, tt)
  add_market-All x (g ∷ grouped) {later} known h (p, ps) =
      elim (Bool-cases (same_identity g.identity x.identity)) [
        | inl e ↦ elim (Bool-cases (any (λ (m : VenueMarket). str_eq x.venue m.venue) g.markets)) [
          | inl f ↦ let k = rw (e, f) at h in cc
          | inr f ↦
              let k = ok-injective (rw (e, f) at h) in
              let mine = sym (same_identity-eq g.identity x.identity e) in
              subst (All (IsGroup u)) k (
                record {
                  same =
                      All-append (λ (m : VenueMarket). m.identity ≡ g.identity) g.markets (x ∷ [])
                        p.same (mine, tt);
                  reviewed =
                      All-append
                        (λ (m : VenueMarket). is_empty (strip u m.equivalence_evidence) ≡ false)
                        g.markets (x ∷ []) p.reviewed (known, tt);
                },
                ps,
              )
        ]
        | inr e ↦
            let (rest, added, made) =
              >>=-eq-ok (add_market x grouped) _ {last = later} (rw e at h) in
            subst (All (IsGroup u)) (ok-injective made) (p, add_market-All x grouped known added ps)
      ]

  group-All :
      (markets : List VenueMarket) (grouped : Grouped) {later : Grouped}
      → group u markets grouped ≡ ok later
      → All (IsGroup u) grouped
      → All (IsGroup u) later
  unfolding group
  group-All [] grouped h ps = subst (All (IsGroup u)) (ok-injective h) ps
  group-All (x ∷ markets) grouped {later} h ps =
      elim (Bool-cases (is_empty (strip u x.equivalence_evidence))) [
        | inl e ↦ group-All markets grouped (rw e at h) ps
        | inr e ↦
            let (mid, added, rest) =
              >>=-eq-ok (add_market x grouped) _ {last = later} (rw e at h) in
            group-All markets mid rest (add_market-All x grouped e added ps)
      ]

-- A common market: enough markets, all of its identity and with their evidence.
pub record IsCommon (u : Unicode) (minimum : ℕ) (c : CommonMarket) : Type 0 where
  pub grouped : IsGroup u c
  pub enough : minimum ≤ length c.markets

abbrev by_venue : VenueMarket → VenueMarket → Bool
by_venue x y = str_lt x.venue y.venue

common_of-All :
    (u : Unicode) (minimum : ℕ) (grouped : Grouped)
    → All (IsGroup u) grouped
    → All (IsCommon u minimum) (common_of minimum grouped)
unfolding common_of
common_of-All u minimum [] ps = tt
common_of-All u minimum (g ∷ grouped) (p, ps) = elim (Bool-cases (leb minimum (length g.markets))) [
  | inl e ↦
      let there = (leb_iff minimum (length g.markets)).0 e in
      rw e (
        record {
          grouped = record {
            same =
                sorted_by-All (λ (m : VenueMarket). m.identity ≡ g.identity) by_venue g.markets
                  p.same;
            reviewed =
                sorted_by-All
                  (λ (m : VenueMarket). is_empty (strip u m.equivalence_evidence) ≡ false) by_venue
                  g.markets p.reviewed;
          };
          enough = omega (arith, length-sorted_by by_venue g.markets);
        },
        common_of-All u minimum grouped ps,
      )
  | inr e ↦ rw e (common_of-All u minimum grouped ps)
]

-- Where discover_common_markets returns, the minimum is at least two, and every common market has
-- at least that many markets, all of its identity and each with evidence that is not blank.
pub discover_common_markets-IsCommon :
    (u : Unicode) (markets : List VenueMarket) (minimum_venues : ℕ) {commons : List CommonMarket}
    → discover_common_markets u markets minimum_venues ≡ ok commons
    → (2 ≤ minimum_venues) × All (IsCommon u minimum_venues) commons
unfolding discover_common_markets
discover_common_markets-IsCommon u markets minimum_venues {commons} h =
    let (done, tested, h0) =
      >>=-eq-ok (raise_if (ltb minimum_venues 2) value_error) _ {last = commons} h in
    let (grouped, ran, made) = >>=-eq-ok (group u markets []) _ {last = commons} h0 in
    let enough = not_raised (ltb minimum_venues 2) value_error tested in
    let all_common = common_of-All u minimum_venues grouped (group-All u markets [] ran tt) in
    (
      ground arith,
      subst (All (IsCommon u minimum_venues)) (ok-injective made) (
          sorted_by-All (IsCommon u minimum_venues) _ (common_of minimum_venues grouped)
            all_common),
    )
