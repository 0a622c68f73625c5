-- ===== src/Reconstruction/Epochs.antt =====
-- `reconstruct_books` of reconstruction/common.py: one envelope at a time, with the open Lighter
-- epochs by channel.
use liqvera.Prelude.{
  ℕ, suc, Bool, false, not, ◌&&◌, ◌||◌, List, [], ◌∷◌, ◌++◌, Option, none, some, Result, err, ok,
  ◌>>=◌, ◌>>◌, raise_if, if◌then◌else◌, leb, ◌==◌,
}
use liqvera.Prelude.Int.{ℤ, pos, leb_ℤ, eqb_ℤ}
use liqvera.Python.{Str, Unicode, codes, str_eq, int_text}
use liqvera.Market
use liqvera.Market.{OrderBookSnapshot}
use liqvera.Provenance.{MarketMappingEvidence, is_approved, is_current}
use liqvera.Evidence.{RawPublicEnvelope}
use liqvera.Reconstruction.Book
use liqvera.Reconstruction.Book.{
  Error, reconstruction_error, value_error, ReconstructedBook, lighter_decoder_id,
  hyperliquid_decoder_id, channel_suffix,
}
use liqvera.Reconstruction.Decoding.{Loads, or_reject}
use liqvera.Reconstruction.Hyperliquid.{decode_hyperliquid_l2book}
use liqvera.Reconstruction.Lighter.{
  LighterSnapshot, LighterUpdate, Message, a_snapshot, an_update, decode_lighter_envelope,
  apply_lighter_update,
}

-- `lighter_epochs`, a dictionary with each channel once
abbrev pub Epochs : Type 0
Epochs = List (Str × OrderBookSnapshot)

unfoldable pub epoch_at : Str → Epochs → Option OrderBookSnapshot
epoch_at channel [] = none
epoch_at channel ((c, s) ∷ epochs) =
    let later = epoch_at channel epochs in if str_eq c channel then some s else later

unfoldable pub close_epoch : Str → Epochs → Epochs
close_epoch channel [] = []
close_epoch channel ((c, s) ∷ epochs) =
    let rest = close_epoch channel epochs in if str_eq c channel then rest else (c, s) ∷ rest

unfoldable pub set_epoch : Str → OrderBookSnapshot → Epochs → Epochs
unfolding close_epoch
set_epoch channel s epochs = (channel, s) ∷ close_epoch channel epochs

-- The candidates of `lighter_ticker_for_channel`.
unfoldable pub ticker_candidates :
    Unicode → ℕ → ℕ → List MarketMappingEvidence → List MarketMappingEvidence
ticker_candidates u index observed_at_ms [] = []
ticker_candidates u index observed_at_ms (m ∷ mappings) =
    let rest = ticker_candidates u index observed_at_ms mappings in
    if is_approved m.decision
      && str_eq (u.casefold m.venue) (codes "lighter")
      && elim m.lighter_market_index [ none ↦ false | some i ↦ i == index ]
      && is_current m (pos observed_at_ms)
    then m ∷ rest
    else rest

abbrev pub only_symbol : List MarketMappingEvidence → Result Error Str
only_symbol (m ∷ []) = ok m.symbol
only_symbol _ = err reconstruction_error

unfoldable pub lighter_ticker_for_channel :
    Unicode → Str → List MarketMappingEvidence → ℕ → Result Error Str
lighter_ticker_for_channel u channel mappings observed_at_ms =
    elim (int_text u (channel_suffix channel)) [
      | none ↦ err value_error
      | some index ↦ only_symbol (ticker_candidates u index observed_at_ms mappings)
    ]

-- The variables of the loop.
pub record Rebuild : Type 0 where
  pub books : List ReconstructedBook
  pub previous_index : Option ℕ
  pub next_epoch : ℕ
  pub epochs : Epochs

-- What one envelope leads to: the book to append, if any, with its decoder and its channel.
abbrev pub Rebuilt : Type 0
Rebuilt = Option (OrderBookSnapshot × (Str × Option Str)) × Epochs

-- `symbol = decoded.symbol`, and the mappings' symbol where the message has none
abbrev pub symbol_of : Unicode → List MarketMappingEvidence → ℕ → LighterSnapshot → Result Error Str
symbol_of u mappings observed_at_ms decoded = elim decoded.symbol [
  | some symbol ↦ ok symbol
  | none ↦ lighter_ticker_for_channel u decoded.channel mappings observed_at_ms
]

-- The branch of a snapshot: the channel's epoch starts anew.
unfoldable pub open_epoch :
    Unicode → List MarketMappingEvidence → ℕ → LighterSnapshot → Epochs → Result Error Rebuilt
open_epoch u mappings observed_at_ms decoded epochs = do
  symbol ← symbol_of u mappings observed_at_ms decoded
  snapshot ← or_reject (
      Market.admit (record {
        venue = codes "LIGHTER";
        symbol = symbol;
        sequence = some decoded.nonce;
        exchange_timestamp_ms = decoded.timestamp;
        received_timestamp_ms = pos observed_at_ms;
        bids = decoded.bids;
        asks = decoded.asks;
      }))
  ok (
    some (snapshot, (lighter_decoder_id, some decoded.channel)),
    set_epoch decoded.channel snapshot epochs,
  )

-- `decoded.symbol is not None and decoded.symbol != previous.symbol`
abbrev pub other_symbol : Option Str → Str → Bool
other_symbol none s = false
other_symbol (some t) s = not (str_eq t s)

-- `nonce == sequence`, for a sequence that may be None
abbrev pub same_nonce : ℤ → Option ℤ → Bool
same_nonce nonce none = false
same_nonce nonce (some z) = eqb_ℤ nonce z

-- The update does not follow the book.
unfoldable pub is_gap : OrderBookSnapshot → LighterUpdate → Bool
is_gap previous decoded =
    other_symbol decoded.symbol previous.symbol
    || not (same_nonce decoded.begin_nonce previous.sequence)
    || leb_ℤ decoded.nonce decoded.begin_nonce

-- What the applied update leads to; a ValueError closes the epoch.
unfoldable pub after_update : Str → Epochs → Result Market.Error OrderBookSnapshot → Rebuilt
after_update channel epochs (ok snapshot) =
    (some (snapshot, (lighter_decoder_id, some channel)), set_epoch channel snapshot epochs)
after_update channel epochs (err e) = (none, close_epoch channel epochs)

-- The branch of an update: without an epoch it is skipped, and a gap closes the epoch.
unfoldable pub continue_epoch : ℕ → LighterUpdate → Epochs → Rebuilt
continue_epoch observed_at_ms decoded epochs = elim (epoch_at decoded.channel epochs) [
  | none ↦ (none, epochs)
  | some previous ↦
      if is_gap previous decoded
      then (none, close_epoch decoded.channel epochs)
      else after_update decoded.channel epochs
          (apply_lighter_update previous decoded observed_at_ms)
]

unfoldable pub on_message :
    Unicode → List MarketMappingEvidence → ℕ → Message → Epochs → Result Error Rebuilt
on_message u mappings observed_at_ms (a_snapshot decoded) epochs =
    open_epoch u mappings observed_at_ms decoded epochs
on_message u mappings observed_at_ms (an_update decoded) epochs =
    ok (continue_epoch observed_at_ms decoded epochs)

-- The branches by venue.
unfoldable pub on_envelope :
    Unicode → Loads → List MarketMappingEvidence → RawPublicEnvelope → Epochs → Result Error Rebuilt
on_envelope u loads mappings e epochs =
    if str_eq (u.casefold e.venue) (codes "hyperliquid")
    then (do
      snapshot ← decode_hyperliquid_l2book u loads e.payload e.observed_at_ms
      ok (some (snapshot, (hyperliquid_decoder_id, none)), epochs))
    else if str_eq (u.casefold e.venue) (codes "lighter")
    then (do
      message ← decode_lighter_envelope u loads e.payload
      on_message u mappings e.observed_at_ms message epochs)
    else ok (none, epochs)

-- `books.append(...)`, or `continue`
unfoldable pub append_book : Unicode → RawPublicEnvelope → Rebuild → Rebuilt → Result Error Rebuild
append_book u e s (none, epochs) = ok (record {
  books = s.books;
  previous_index = some e.envelope_index;
  next_epoch = s.next_epoch;
  epochs = epochs;
})
append_book u e s (some (snapshot, (decoder_id, channel)), epochs) = do
  book ← Book.admit u (record {
    snapshot = snapshot;
    envelope_index = e.envelope_index;
    payload_sha256 = e.payload_sha256;
    decoder_id = decoder_id;
    epoch_id = s.next_epoch;
    mapping_id = none;
    mapping = none;
    channel = channel;
  })
  ok (record {
    books = s.books ++ book ∷ [];
    previous_index = some e.envelope_index;
    next_epoch = suc s.next_epoch;
    epochs = epochs;
  })

-- `previous_index is not None and envelope.envelope_index <= previous_index`
abbrev pub is_out_of_order : Option ℕ → ℕ → Bool
is_out_of_order none index = false
is_out_of_order (some p) index = leb index p

-- One round of the loop.
unfoldable pub rebuild_step :
    Unicode
    → Loads
    → List MarketMappingEvidence
    → Rebuild
    → RawPublicEnvelope
    → Result Error Rebuild
rebuild_step u loads mappings s e = do
  raise_if (is_out_of_order s.previous_index e.envelope_index) reconstruction_error
  rebuilt ← on_envelope u loads mappings e s.epochs
  append_book u e s rebuilt

unfoldable pub rebuild :
    Unicode
    → Loads
    → List MarketMappingEvidence
    → Rebuild
    → List RawPublicEnvelope
    → Result Error Rebuild
rebuild u loads mappings s [] = ok s
rebuild u loads mappings s (e ∷ envelopes) = do
  s' ← rebuild_step u loads mappings s e
  rebuild u loads mappings s' envelopes

abbrev pub started : Rebuild
started = record { books = []; previous_index = none; next_epoch = 0; epochs = [] }

unfoldable pub reconstruct_books :
    Unicode
    → Loads
    → List RawPublicEnvelope
    → List MarketMappingEvidence
    → Result Error (List ReconstructedBook)
reconstruct_books u loads envelopes mappings = do
  s ← rebuild u loads mappings started envelopes
  ok s.books
