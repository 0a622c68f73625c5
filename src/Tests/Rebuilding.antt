-- ===== src/Tests/Rebuilding.antt =====
-- Messages that rebuild books, and an update that continues one.
use liqvera.Prelude.{ℕ, ◌≡◌, refl, List, [], ◌∷◌, none, some, ok, All, true, false}
use liqvera.Prelude.Int.{pos}
use liqvera.Python.{Str, codes, str_eq}
use liqvera.Market.{BookLevel, OrderBookSnapshot}
use liqvera.Reconstruction.Book.{ReconstructedBook, hyperliquid_decoder_id}
use liqvera.Json.{Json, array, object, text, integer, item, no_items, member, no_members}
use liqvera.Evidence.{RawPublicEnvelope}
use liqvera.Market.Admission.{IsBook}
use liqvera.Reconstruction.Decoding.{Loads}
use liqvera.Reconstruction.Lighter.{LighterUpdate}
use liqvera.Reconstruction.Epochs.{Epochs, epoch_at, continue_epoch, reconstruct_books}
use liqvera.Reconstruction.Numbered.{Numbered, Increasing, reconstruct_books-Numbered}
use liqvera.Reconstruction.Continuity.{emitted, Follows, continue_epoch-Follows}
use liqvera.Tests.{ascii}
use liqvera.Tests.Books.{level, whole, snapshot}
use liqvera.Tests.Binding.{digest}

-- A message that `json.loads` stands for: a book of one bid and one ask.
abbrev side : Str → Str → Json
side price size = array (
    item (object (member (codes "px") (text price) (member (codes "sz") (text size) no_members)))
      no_items)

abbrev l2_book : Json
l2_book = object (
    member (codes "coin") (text (codes "BTC")) (
      member (codes "time") (integer (pos 1000)) (
        member (codes "levels")
          (array (
            item (side (codes "99.5") (codes "1"))
              (item (side (codes "100") (codes "2")) no_items)))
          no_members)))

abbrev loads : Loads
loads payload = ok l2_book

abbrev envelope : ℕ → RawPublicEnvelope
envelope index = record {
  capture_run_id = codes "run";
  envelope_index = index;
  observed_at_ms = 1010;
  venue = codes "hyperliquid";
  payload_sha256 = digest;
  payload = [];
}

abbrev rebuilt_book : ℕ → ℕ → ReconstructedBook
rebuilt_book index epoch = record {
  snapshot = record {
    venue = codes "HYPERLIQUID";
    symbol = codes "BTC";
    sequence = none;
    exchange_timestamp_ms = pos 1000;
    received_timestamp_ms = pos 1010;
    bids =
        record {
          price = record { coefficient = pos 9_950_000_000; places = 8 };
          quantity = record { coefficient = pos 100_000_000; places = 8 };
        }
        ∷ [];
    asks =
        record {
          price = record { coefficient = pos 10_000_000_000; places = 8 };
          quantity = record { coefficient = pos 200_000_000; places = 8 };
        }
        ∷ [];
  };
  envelope_index = index;
  payload_sha256 = digest;
  decoder_id = hyperliquid_decoder_id;
  epoch_id = epoch;
  mapping_id = none;
  mapping = none;
  channel = none;
}

two-rebuilt :
    reconstruct_books ascii loads (envelope 4 ∷ envelope 7 ∷ []) []
    ≡ ok (rebuilt_book 4 0 ∷ rebuilt_book 7 1 ∷ [])
unfolding reconstruct_books liqvera.Reconstruction.Epochs.rebuild
    liqvera.Reconstruction.Epochs.rebuild_step liqvera.Reconstruction.Epochs.on_envelope
    liqvera.Reconstruction.Epochs.append_book
    liqvera.Reconstruction.Hyperliquid.decode_hyperliquid_l2book
    liqvera.Reconstruction.Hyperliquid.two_sides liqvera.Reconstruction.Decoding.book_levels
    liqvera.Reconstruction.Decoding.levels_of_items liqvera.Reconstruction.Decoding.price_and_size
    liqvera.Reconstruction.Book.admit liqvera.Python.is_sha256
    liqvera.Reconstruction.Book.require_channel liqvera.Reconstruction.Book.require_mapping
    liqvera.Reconstruction.Book.require_venue liqvera.Json.get liqvera.Python.str_eq
    liqvera.Python.strip liqvera.Python.drop_spaces liqvera.Python.split_on liqvera.Python.cons_head
    liqvera.Python.isdigit liqvera.Python.int_text liqvera.Python.scan_digits liqvera.Python.zeros
    liqvera.Exact.parse liqvera.Exact.parse_parts liqvera.Exact.take_sign liqvera.Exact.make
    liqvera.Decimal.le liqvera.Decimal.lt liqvera.Prelude.Int.◌*ℤ◌ liqvera.Market.admit
    liqvera.Market.book_level liqvera.Market.is_crossed liqvera.Market.strictly_ascending
    liqvera.Market.strictly_descending
two-rebuilt = refl

reconstruct_books-Numbered_example :
    All (λ b. IsBook b.snapshot) (rebuilt_book 4 0 ∷ rebuilt_book 7 1 ∷ [])
    × Numbered 0 (rebuilt_book 4 0 ∷ rebuilt_book 7 1 ∷ [])
    × Increasing (rebuilt_book 4 0 ∷ rebuilt_book 7 1 ∷ [])
reconstruct_books-Numbered_example =
    reconstruct_books-Numbered ascii loads (envelope 4 ∷ envelope 7 ∷ []) []
      {books = rebuilt_book 4 0 ∷ rebuilt_book 7 1 ∷ []} two-rebuilt

-- An update from nonce 7 to 9 that moves the best ask of the book.
abbrev update : LighterUpdate
update = record {
  channel = codes "order_book:1";
  symbol = none;
  timestamp = pos 1020;
  nonce = pos 9;
  begin_nonce = pos 7;
  bids = [];
  asks = (whole 101, whole 6) ∷ [];
}

abbrev open_epochs : Epochs
open_epochs = (codes "order_book:1", snapshot) ∷ []

abbrev moved : OrderBookSnapshot
moved = record {
  venue = codes "LIGHTER";
  symbol = codes "BTC";
  sequence = some (pos 9);
  exchange_timestamp_ms = pos 1020;
  received_timestamp_ms = pos 1030;
  bids = snapshot.bids;
  asks = level 101 6 ∷ level 102 5 ∷ [];
}

update-emitted : emitted (continue_epoch 1030 update open_epochs) ≡ some moved
unfolding continue_epoch epoch_at liqvera.Reconstruction.Epochs.is_gap
    liqvera.Reconstruction.Epochs.after_update liqvera.Reconstruction.Epochs.set_epoch
    liqvera.Reconstruction.Epochs.close_epoch liqvera.Reconstruction.Lighter.apply_lighter_update
    liqvera.Reconstruction.Levels.apply_side liqvera.Reconstruction.Levels.apply_delta
    liqvera.Reconstruction.Levels.replace_or_append liqvera.Python.str_eq liqvera.Decimal.eq
    liqvera.Decimal.le liqvera.Decimal.lt liqvera.Prelude.Int.◌*ℤ◌ liqvera.Market.book_level
    liqvera.Market.admit liqvera.Market.strictly_descending liqvera.Market.strictly_ascending
    liqvera.Market.is_crossed
update-emitted = refl

continue_epoch-Follows_example :
    (previous : OrderBookSnapshot) × (epoch_at (codes "order_book:1") open_epochs ≡ some previous)
    × Follows previous update moved
continue_epoch-Follows_example =
    continue_epoch-Follows 1030 update open_epochs {s = moved} update-emitted
