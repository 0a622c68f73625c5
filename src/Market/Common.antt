-- ===== src/Market/Common.antt =====
-- `discover_common_markets` of packages/contracts/src/liqvera_contracts/market.py.
use liqvera.Prelude.{
  ℕ, Bool, true, false, ◌&&◌, ◌||◌, List, [], ◌∷◌, ◌++◌, Result, ok, err, ◌>>=◌, ◌>>◌, raise_if,
  if◌then◌else◌, length, ltb, leb, ◌==◌,
}
use liqvera.Python.{Str, Raised, value_error, Unicode, is_empty, any, str_eq, strip}
use liqvera.Market.{InstrumentIdentity}
use liqvera.Market.Venue.{VenueMarket}

pub record CommonMarket : Type 0 where
  pub identity : InstrumentIdentity
  pub markets : List VenueMarket

-- `==` of two identities
unfoldable pub same_identity : InstrumentIdentity → InstrumentIdentity → Bool
same_identity a b =
    str_eq a.base_asset b.base_asset
    && (str_eq a.quote_asset b.quote_asset
        && (str_eq a.product_kind b.product_kind
            && (str_eq a.settlement_asset b.settlement_asset
                && str_eq a.payoff_kind b.payoff_kind)))

-- `<` of two texts, by code points
unfoldable pub str_lt : Str → Str → Bool
str_lt [] [] = false
str_lt [] (d ∷ t) = true
str_lt (c ∷ s) [] = false
str_lt (c ∷ s) (d ∷ t) = ltb c d || c == d && str_lt s t

-- `<` of two tuples of texts
unfoldable pub texts_lt : List Str → List Str → Bool
unfolding str_lt
texts_lt [] [] = false
texts_lt [] (t ∷ ts) = true
texts_lt (s ∷ ss) [] = false
texts_lt (s ∷ ss) (t ∷ ts) = str_lt s t || str_eq s t && texts_lt ss ts

abbrev pub texts_of_identity : InstrumentIdentity → List Str
texts_of_identity a =
    a.base_asset ∷ a.quote_asset ∷ a.product_kind ∷ a.settlement_asset ∷ a.payoff_kind ∷ []

-- `sorted(values, key=...)`, by insertion
unfoldable pub insert_by {ℓ} : {A : Type ℓ} → (A → A → Bool) → A → List A → List A
insert_by before a [] = a ∷ []
insert_by before a (x ∷ xs) =
    let rest = insert_by before a xs in if before x a then x ∷ rest else a ∷ x ∷ xs

unfoldable pub sorted_by {ℓ} : {A : Type ℓ} → (A → A → Bool) → List A → List A
sorted_by before [] = []
sorted_by before (a ∷ xs) = insert_by before a (sorted_by before xs)

-- `grouped`: the markets of an identity, each of another venue
abbrev pub Grouped : Type 0
Grouped = List CommonMarket

-- `grouped[item.identity][item.venue] = item`, where the venue is new
unfoldable pub add_market : VenueMarket → Grouped → Result Raised Grouped
add_market x [] = ok (record { identity = x.identity; markets = x ∷ [] } ∷ [])
add_market x (g ∷ grouped) =
    let rest = add_market x grouped in
    if same_identity g.identity x.identity
    then if any (λ (m : VenueMarket). str_eq x.venue m.venue) g.markets
      then err value_error
      else ok (record g { markets = g.markets ++ x ∷ [] } ∷ grouped)
    else (do later ← rest; ok (g ∷ later))

-- The loop over the markets
unfoldable pub group : Unicode → List VenueMarket → Grouped → Result Raised Grouped
group u [] grouped = ok grouped
group u (x ∷ markets) grouped =
    let skip = group u markets grouped in
    if is_empty (strip u x.equivalence_evidence)
    then skip
    else (do later ← add_market x grouped; group u markets later)

-- The identities with enough venues, and the markets of each by venue
unfoldable pub common_of : ℕ → Grouped → List CommonMarket
common_of minimum [] = []
common_of minimum (g ∷ grouped) =
    let rest = common_of minimum grouped in
    if leb minimum (length g.markets)
    then record g { markets = sorted_by (λ x y. str_lt x.venue y.venue) g.markets } ∷ rest
    else rest

-- `discover_common_markets`
unfoldable pub discover_common_markets :
    Unicode → List VenueMarket → ℕ → Result Raised (List CommonMarket)
discover_common_markets u markets minimum_venues = do
  raise_if (ltb minimum_venues 2) value_error
  grouped ← group u markets []
  ok (
      sorted_by (λ a b. texts_lt (texts_of_identity a.identity) (texts_of_identity b.identity))
        (common_of minimum_venues grouped))
