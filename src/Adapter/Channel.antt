-- ===== src/Adapter/Channel.antt =====
-- The channel that a reducer was fed from.
use mathlib.Core.List.{Memᴰ}
use liqvera.Prelude.{
  ◌≡◌, ◌⊎◌, inl, inr, refl, Bool, true, false, not, ◌++◌, List, Option, Result, ok, err, raise_if,
  not_raised,
}
use liqvera.Prelude.Int.{ℤ}
use liqvera.Prelude.Action.{call-eq-ok, self-eq-ok}
use liqvera.Python.{Str, Raised, value_error, Unicode, codes, str_eq, str_eq_iff}
use liqvera.Json.{Json, Members, get}
use liqvera.Json.Builtins.{Builtins}
use liqvera.Market.{OrderBookSnapshot}
use liqvera.Market.Venue.{VenueMarket}
use liqvera.Capture.Fields.{string_of}
use liqvera.Capture.Reducer.{LighterBookReducer, str_int, step, apply, closing}

-- The calls of the three methods, in their order; the caller goes on after an exception.
pub data Call : Type 0 where
  listing : Json → Call
  message : ℤ → VenueMarket → Members → Call

-- The message names the channel of the index.
pub record IsOn (u : Unicode) (index : ℤ) (fields : Members) : Type 0 where
  pub channel :
      string_of u (get (codes "channel") fields) ≡ ok (codes "order_book:" ++ str_int index)

-- The last message that was handed to the reducer, for its symbol, on the channel of its index
pub record IsFollowed (u : Unicode) (history : List Call) (symbol : Str) (r : LighterBookReducer)
    : Type 0 where
  pub received : ℤ
  pub market : VenueMarket
  pub fields : Members
  pub called : Memᴰ (message received market fields) history
  pub of_symbol : market.symbol ≡ symbol
  pub on_channel : IsOn u r.market_index fields

-- A reducer stands under its symbol, and is closed or was fed from its channel.
pub record IsFed (u : Unicode) (history : List Call) (symbol : Str) (r : LighterBookReducer)
    : Type 0 where
  pub keyed : r.symbol ≡ symbol
  pub followed : (r.unavailable ≡ true) ⊎ IsFollowed u history symbol r

module _ (u : Unicode) (b : Builtins) (received : ℤ) (fields : Members)
    (r : LighterBookReducer) where
  step-IsOn :
      {t : LighterBookReducer} {o : Option OrderBookSnapshot}
      → step u b received fields r ≡ (t, ok o)
      → IsOn u r.market_index fields
  unfolding step
  step-IsOn {t} {o} h =
      let (channel, read, h0) =
        call-eq-ok (string_of u (get (codes "channel") fields)) _ r {t = t} {b = o} h in
      let expected = codes "order_book:" ++ str_int r.market_index in
      let (done, tested, rest) =
        call-eq-ok (raise_if (not (str_eq channel expected)) value_error) _ r {t = t} {b = o}
          (self-eq-ok _ r h0) in
      let named = not_raised (not (str_eq channel expected)) value_error tested in
      record { channel = same channel expected read (not_false named) }
    where
      not_false : {t : Bool} → not t ≡ false → t ≡ true
      not_false {t = true} h = refl
      not_false {t = false} h = cc

      same :
          (channel expected : Str)
          → string_of u (get (codes "channel") fields) ≡ ok channel
          → str_eq channel expected ≡ true
          → string_of u (get (codes "channel") fields) ≡ ok expected
      same channel expected read h = rw (← (str_eq_iff channel expected).0 h) read

  -- A message that leaves the reducer available was on its channel.
  pub apply-IsOn :
      ((apply u b received fields r).0.unavailable ≡ true) ⊎ IsOn u r.market_index fields
  unfolding apply
  apply-IsOn = go (step u b received fields r) refl
    where
      go :
          (x : LighterBookReducer × Result Raised (Option OrderBookSnapshot))
          → step u b received fields r ≡ x
          → ((closing x).0.unavailable ≡ true) ⊎ IsOn u r.market_index fields
      go (t, err e) h = inl refl
      go (t, ok o) h = inr (step-IsOn h)
