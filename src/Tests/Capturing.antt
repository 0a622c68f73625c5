-- ===== src/Tests/Capturing.antt =====
-- A reducer under a snapshot and an update.
use liqvera.Prelude.{◌≡◌, refl, true, false, List, [], ◌∷◌, Option, none, some, ok, length}
use liqvera.Prelude.Int.{ℤ, pos}
use liqvera.Python.{Str, codes}
use liqvera.Decimal.{Decimal, finite}
use liqvera.Json.{
  Json, text, integer, array, object, Items, no_items, item, Members, no_members, member,
}
use liqvera.Json.Builtins.{Builtins}
use liqvera.Capture.Reducer.{
  LighterBookReducer, lighter_book_reducer, apply, run, Levels, apply_items,
}
use liqvera.Capture.Available.{Emits, IsClosed, apply-Emits}
use liqvera.Capture.Timed.{IsTimed, run-IsTimed}
use liqvera.Capture.Prices.{Shows, apply_items-Shows}
use liqvera.Tests.{ascii}

-- A text stands for its length.
abbrev pub of_length : Str → Decimal
of_length s = record { coefficient = pos (length s); places = 0 }

abbrev pub lengths : Builtins
lengths = record {
  repr = λ j. [];
  int_of_text = λ s. none;
  int_of_real = λ s. ok (pos 0);
  decimal_of_text = λ s. some (finite (of_length s));
}

abbrev level : Str → Str → Json
level price size =
    object (member (codes "price") (text price) (member (codes "size") (text size) no_members))

abbrev message : Str → ℤ → Members → Members
message kind timestamp book = member (codes "channel") (text (codes "order_book:7")) (
    member (codes "type") (text kind) (
      member (codes "timestamp") (integer timestamp)
        (member (codes "order_book") (object book) no_members)))

abbrev pub opening : Members
opening = message (codes "subscribed/order_book") (pos 100) (
    member (codes "nonce") (integer (pos 5)) (
      member (codes "bids") (array (item (level (codes "..") (codes ".")) no_items)) (
        member (codes "asks") (array (item (level (codes "...") (codes ".")) no_items))
          no_members)))

abbrev changes : Items
changes = item (level (codes ".") (codes "..")) (item (level (codes "..") []) no_items)

abbrev change : Members
change = message (codes "update/order_book") (pos 101) (
    member (codes "begin_nonce") (integer (pos 5)) (
      member (codes "nonce") (integer (pos 6)) (
        member (codes "bids") (array changes) (member (codes "asks") (array no_items) no_members))))

abbrev both : List (ℤ × Members)
both = (pos 110, opening) ∷ (pos 111, change) ∷ []

abbrev reducer : LighterBookReducer
reducer = lighter_book_reducer (codes "BTC") (pos 7)

stays-available : (run ascii lengths reducer both).unavailable ≡ false
unfolding run apply liqvera.Capture.Reducer.step liqvera.Capture.Reducer.str_int
    liqvera.Capture.Reducer.start liqvera.Capture.Reducer.levels
    liqvera.Capture.Reducer.apply_levels liqvera.Capture.Reducer.read_level
    liqvera.Capture.Reducer.book_levels liqvera.Capture.Reducer.build_snapshot
    liqvera.Capture.Reducer.follow liqvera.Capture.Reducer.insert_level liqvera.Capture.Reducer.pop
    liqvera.Capture.Reducer.put liqvera.Capture.Reducer.snapshot liqvera.Capture.Reducer.snapshot_of
    liqvera.Capture.Reducer.sorted liqvera.Capture.Reducer.timed_snapshot
    liqvera.Capture.Reducer.update apply_items liqvera.Prelude.Action.◌>>=◌
    liqvera.Capture.Fields.string_of liqvera.Capture.Fields.decimal_of liqvera.Json.get
    liqvera.Python.str_eq liqvera.Python.strip liqvera.Python.str_nat liqvera.Decimal.lt
    liqvera.Decimal.eq liqvera.Decimal.le liqvera.Market.admit liqvera.Market.book_level
    liqvera.Market.is_crossed liqvera.Market.strictly_ascending liqvera.Market.strictly_descending
    liqvera.Prelude.Int.◌*ℤ◌ liqvera.Python.drop_spaces liqvera.Python.str_fuel
stays-available = refl

run-IsTimed_example : IsTimed (run ascii lengths reducer both)
run-IsTimed_example = run-IsTimed ascii lengths (codes "BTC") (pos 7) both

apply-Emits_example :
    Emits IsClosed reducer
      (apply ascii lengths (pos 110) opening reducer).0
      (apply ascii lengths (pos 110) opening reducer).1
apply-Emits_example = apply-Emits ascii lengths (pos 110) opening reducer

abbrev before : Levels
before = (of_length (codes ".."), of_length (codes ".")) ∷ []

abbrev behind : Levels
behind = (of_length (codes "."), of_length (codes "..")) ∷ []

changes-apply : apply_items ascii lengths changes before ≡ (behind, ok tt)
unfolding apply_items liqvera.Prelude.Action.◌>>=◌ liqvera.Capture.Reducer.read_level
    liqvera.Capture.Fields.decimal_of liqvera.Json.get liqvera.Python.str_eq liqvera.Decimal.lt
    liqvera.Prelude.Int.◌*ℤ◌ liqvera.Decimal.le liqvera.Decimal.eq liqvera.Capture.Reducer.pop
    liqvera.Capture.Reducer.put
changes-apply = refl

apply_items-Shows_example : Shows ascii lengths changes before behind
apply_items-Shows_example = apply_items-Shows ascii lengths changes before changes-apply
