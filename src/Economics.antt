-- ===== src/Economics.antt =====
-- `SealedStageAEconomics` of packages/contracts/src/liqvera_contracts/economics.py, and its document. The
-- schema is a constant, the count is not negative, and the money values are ExactDecimals.
pub mod Document
use liqvera.Prelude.{
  ℕ, Bool, true, false, not, ◌&&◌, List, [], ◌∷◌, Option, none, some, Result, ok, err, ◌>>=◌, ◌>>◌,
  raise_if, all,
}
use liqvera.Prelude.Int.{ℤ, pos, negsuc}
use liqvera.Python.{Str, Raised, type_error, value_error, key_error, Unicode, codes, str_eq, any}
use liqvera.Json.{
  Json, boolean, integer, text, object, Members, no_members, member, find, has_keys, is_text,
}
use liqvera.Json.Builtins.{subscript, value_or_raise}
use liqvera.Exact.{ExactDecimal, parse, to_text}
use liqvera.Exact

pub record SealedStageAEconomics : Type 0 where
  pub independent_episode_count : ℕ
  pub total_net : ExactDecimal
  pub median_net : ExactDecimal
  pub usd_1000_net : ExactDecimal
  pub usd_5000_net : ExactDecimal
  pub largest_episode_concentration : ExactDecimal
  pub survived_delay_300ms : Bool
  pub survived_delay_500ms : Bool
  pub survived_both_fee_cases : Bool

abbrev pub economics_schema : Str
economics_schema = codes "liqvera-stage-a-sealed-economics/v1"

abbrev pub closed_keys : List Str
closed_keys =
    codes "schema"
    ∷ codes "independent_episode_count"
    ∷ codes "total_net"
    ∷ codes "median_net"
    ∷ codes "usd_1000_net"
    ∷ codes "usd_5000_net"
    ∷ codes "largest_episode_concentration"
    ∷ codes "survived_delay_300ms"
    ∷ codes "survived_delay_500ms"
    ∷ codes "survived_both_fee_cases"
    ∷ []

-- The ExactErrors are ValueErrors.
abbrev pub exactly : Result Exact.Error ExactDecimal → Result Raised ExactDecimal
exactly (ok e) = ok e
exactly (err e) = err value_error

-- `_parse_money(document[name], name)`
unfoldable pub parse_money : Unicode → Members → Str → Result Raised ExactDecimal
parse_money u document name = elim (find name document) [
  | none ↦ err key_error
  | some (text s) ↦ exactly (parse u s)
  | some _ ↦ err type_error
]

-- `_require_bool(document[name], name)`
unfoldable pub require_bool : Members → Str → Result Raised Bool
require_bool document name = elim (find name document) [
  | none ↦ err key_error
  | some (boolean b) ↦ ok b
  | some _ ↦ err type_error
]

-- The tests on `independent_episode_count`.
unfoldable pub episode_count : Members → Result Raised ℕ
episode_count document = elim (find (codes "independent_episode_count") document) [
  | none ↦ err key_error
  | some (integer (pos n)) ↦ ok n
  | some (integer (negsuc n)) ↦ err value_error
  | some _ ↦ err type_error
]

-- `from_document` of a dict. The tests of `__post_init__` repeat tests of this one.
unfoldable pub from_members : Unicode → Members → Result Raised SealedStageAEconomics
from_members u document = do
  raise_if (not (has_keys closed_keys [] document)) value_error
  schema ← value_or_raise key_error (find (codes "schema") document)
  raise_if (not (is_text economics_schema schema)) value_error
  count ← episode_count document
  total ← parse_money u document (codes "total_net")
  median ← parse_money u document (codes "median_net")
  thousand ← parse_money u document (codes "usd_1000_net")
  five_thousand ← parse_money u document (codes "usd_5000_net")
  concentration ← parse_money u document (codes "largest_episode_concentration")
  delay_300 ← require_bool document (codes "survived_delay_300ms")
  delay_500 ← require_bool document (codes "survived_delay_500ms")
  fees ← require_bool document (codes "survived_both_fee_cases")
  ok (record {
    independent_episode_count = count;
    total_net = total;
    median_net = median;
    usd_1000_net = thousand;
    usd_5000_net = five_thousand;
    largest_episode_concentration = concentration;
    survived_delay_300ms = delay_300;
    survived_delay_500ms = delay_500;
    survived_both_fee_cases = fees;
  })

-- `SealedStageAEconomics.from_document`
unfoldable pub from_document : Unicode → Json → Result Raised SealedStageAEconomics
from_document u (object document) = from_members u document
from_document u _ = err type_error

-- The document that `to_canonical_json` dumps.
unfoldable pub to_document : Unicode → SealedStageAEconomics → Members
to_document u e =
    member (codes "independent_episode_count") (integer (pos e.independent_episode_count)) (
      member (codes "largest_episode_concentration")
        (text (to_text e.largest_episode_concentration))
        (member (codes "median_net") (text (to_text e.median_net)) (
          member (codes "schema") (text economics_schema) (
            member (codes "survived_both_fee_cases") (boolean e.survived_both_fee_cases) (
              member (codes "survived_delay_300ms") (boolean e.survived_delay_300ms) (
                member (codes "survived_delay_500ms") (boolean e.survived_delay_500ms) (
                  member (codes "total_net") (text (to_text e.total_net)) (
                    member (codes "usd_1000_net") (text (to_text e.usd_1000_net)) (
                      member (codes "usd_5000_net") (text (to_text e.usd_5000_net))
                        no_members)))))))))
