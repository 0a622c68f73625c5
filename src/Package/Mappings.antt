-- ===== src/Package/Mappings.antt =====
-- The reviewed mappings of a package: `_mapping_from_document` and `read_mapping_snapshot` of
-- packages/readonly-analyzer/src/liqvera_readonly_analyzer/frozen_package/reader.py.
use liqvera.Prelude.{
  not, List, [], ◌∷◌, Option, none, some, Result, ok, err, ◌>>=◌, ◌>>◌, raise_if, if◌then◌else◌,
}
use liqvera.Prelude.Int.{ℤ, pos}
use liqvera.Python.{
  Str, type_error, value_error, decode_error, key_error, overflow_error, invalid_operation,
  os_error, recursion_error, codes, str_eq,
}
use liqvera.Decimal.{Number}
use liqvera.Json.{
  Json, null, integer, text, Items, no_items, item, Members, has_keys, find, as_array, as_object,
}
use liqvera.Json.Builtins.{to_text, to_int, value_or_raise}
use liqvera.Market.{InstrumentIdentity}
use liqvera.Provenance.{
  MappingDecision, approved, rejected, MarketMappingEvidence, mapping_evidence,
}
use liqvera.Evidence.{MappingSnapshot, mapping_snapshot}
use liqvera.Package.{
  Platform, Error, frozen, raised, record_invalid, run_mismatch, or_frozen, uncaught, loads_decoded,
  read_bytes,
}
use liqvera.Package.Reader.{Reader, require}

abbrev pub identity_keys : List Str
identity_keys =
    codes "base_asset"
    ∷ codes "quote_asset"
    ∷ codes "product_kind"
    ∷ codes "settlement_asset"
    ∷ codes "payoff_kind"
    ∷ []

abbrev pub mapping_keys : List Str
mapping_keys =
    codes "mapping_id"
    ∷ codes "mapping_version"
    ∷ codes "decision"
    ∷ codes "venue"
    ∷ codes "symbol"
    ∷ codes "identity"
    ∷ codes "evidence_sha256"
    ∷ codes "evidence_reference"
    ∷ codes "valid_from_ms"
    ∷ codes "valid_until_ms"
    ∷ codes "reviewed_contract_multiplier"
    ∷ codes "displayed_size_unit"
    ∷ codes "quantity_step"
    ∷ codes "price_tick"
    ∷ codes "price_decimals"
    ∷ codes "max_price_significant_digits"
    ∷ codes "min_quantity"
    ∷ codes "min_notional"
    ∷ []

abbrev pub optional_mapping_keys : List Str
optional_mapping_keys = codes "lighter_market_index" ∷ []

-- `row[key]` of a dict
abbrev pub at : Members → Str → Result Error Json
at row key = uncaught (value_or_raise key_error (find key row))

-- `str(row[key])`
abbrev pub text_at : Platform → Members → Str → Result Error Str
text_at p row key = do raw ← at row key; ok (to_text p.builtins raw)

-- `int(row[key])`
abbrev pub int_at : Platform → Members → Str → Result Error ℤ
int_at p row key = do raw ← at row key; uncaught (to_int p.builtins raw)

-- `_require_exact_keys`
unfoldable pub require_exact_keys : Json → List Str → Result Error Members
require_exact_keys raw keys = do
  fields ← require record_invalid (as_object raw)
  raise_if (not (has_keys keys [] fields)) (frozen record_invalid)
  ok fields

-- `_decimal_string`
unfoldable pub decimal_string : Platform → Json → Result Error Number
decimal_string p (text s) =
    uncaught (value_or_raise invalid_operation (p.builtins.decimal_of_text s))
decimal_string p _ = err (frozen record_invalid)

-- `_optional_decimal_string`
unfoldable pub optional_decimal_string : Platform → Json → Result Error (Option Number)
optional_decimal_string p null = ok none
optional_decimal_string p raw = do x ← decimal_string p raw; ok (some x)

-- `InstrumentIdentity(...)` of the row
unfoldable pub identity_of : Platform → Members → Result Error InstrumentIdentity
identity_of p row = do
  raw ← at row (codes "identity")
  fields ← require_exact_keys raw identity_keys
  base ← text_at p fields (codes "base_asset")
  quote ← text_at p fields (codes "quote_asset")
  product ← text_at p fields (codes "product_kind")
  settlement ← text_at p fields (codes "settlement_asset")
  payoff ← text_at p fields (codes "payoff_kind")
  ok (record {
    base_asset = base;
    quote_asset = quote;
    product_kind = product;
    settlement_asset = settlement;
    payoff_kind = payoff;
  })

-- `until`
unfoldable pub until_of : Platform → Json → Result Error (Option ℤ)
until_of p null = ok none
until_of p raw = do until ← uncaught (to_int p.builtins raw); ok (some until)

-- The value of `lighter_market_index`, for a mapping of Lighter only
unfoldable pub index_of_value : Platform → Members → Json → Result Error (Option ℤ)
index_of_value p row (integer (pos n)) = do
  venue ← text_at p row (codes "venue")
  raise_if (not (str_eq (p.unicode.casefold venue) (codes "lighter"))) (frozen record_invalid)
  ok (some (pos n))
index_of_value p row _ = err (frozen record_invalid)

unfoldable pub lighter_index_of : Platform → Members → Result Error (Option ℤ)
lighter_index_of p row = elim (find (codes "lighter_market_index") row) [
  | none ↦ ok none
  | some raw ↦ index_of_value p row raw
]

-- `MappingDecision(value)`
unfoldable pub mapping_decision : Str → Result Error MappingDecision
mapping_decision s =
    if str_eq s (codes "APPROVED")
    then ok approved
    else if str_eq s (codes "REJECTED")
    then ok rejected
    else err (raised value_error)

-- `_mapping_from_document` of a row with the right keys
unfoldable pub mapping_of_row : Platform → Members → Result Error MarketMappingEvidence
mapping_of_row p row = do
  identity ← identity_of p row
  until_raw ← at row (codes "valid_until_ms")
  until ← until_of p until_raw
  index ← lighter_index_of p row
  id ← text_at p row (codes "mapping_id")
  version ← text_at p row (codes "mapping_version")
  decision_text ← text_at p row (codes "decision")
  decision ← mapping_decision decision_text
  venue ← text_at p row (codes "venue")
  symbol ← text_at p row (codes "symbol")
  digest ← text_at p row (codes "evidence_sha256")
  reference ← text_at p row (codes "evidence_reference")
  from ← int_at p row (codes "valid_from_ms")
  multiplier_raw ← at row (codes "reviewed_contract_multiplier")
  multiplier ← decimal_string p multiplier_raw
  size_unit ← text_at p row (codes "displayed_size_unit")
  step_raw ← at row (codes "quantity_step")
  step ← decimal_string p step_raw
  tick_raw ← at row (codes "price_tick")
  tick ← optional_decimal_string p tick_raw
  places ← at row (codes "price_decimals")
  digits ← at row (codes "max_price_significant_digits")
  quantity_raw ← at row (codes "min_quantity")
  quantity ← optional_decimal_string p quantity_raw
  notional_raw ← at row (codes "min_notional")
  notional ← decimal_string p notional_raw
  uncaught (
      mapping_evidence (record {
        mapping_id = id;
        mapping_version = version;
        decision = decision;
        venue = venue;
        symbol = symbol;
        identity = identity;
        evidence_sha256 = digest;
        evidence_reference = reference;
        valid_from_ms = from;
        valid_until_ms = until;
        reviewed_contract_multiplier = multiplier;
        displayed_size_unit = size_unit;
        quantity_step = step;
        price_tick = tick;
        price_decimals = places;
        max_price_significant_digits = digits;
        min_quantity = quantity;
        min_notional = notional;
        lighter_market_index = index;
      }))

-- `_mapping_from_document`
unfoldable pub mapping_from_document : Platform → Json → Result Error MarketMappingEvidence
mapping_from_document p raw = do
  row ← require record_invalid (as_object raw)
  raise_if (not (has_keys mapping_keys optional_mapping_keys row)) (frozen record_invalid)
  mapping_of_row p row

unfoldable pub mappings_of_items : Platform → Items → Result Error (List MarketMappingEvidence)
mappings_of_items p no_items = ok []
mappings_of_items p (item raw rest) = do
  m ← mapping_from_document p raw
  mappings ← mappings_of_items p rest
  ok (m ∷ mappings)

-- `except (TypeError, ValueError, KeyError, InvalidOperation)`; FrozenPackageError is a ValueError.
unfoldable pub as_record_invalid : Error → Error
as_record_invalid (frozen code) = frozen record_invalid
as_record_invalid (raised type_error) = frozen record_invalid
as_record_invalid (raised value_error) = frozen record_invalid
as_record_invalid (raised decode_error) = frozen record_invalid
as_record_invalid (raised key_error) = frozen record_invalid
as_record_invalid (raised invalid_operation) = frozen record_invalid
as_record_invalid (raised overflow_error) = raised overflow_error
as_record_invalid (raised os_error) = raised os_error
as_record_invalid (raised recursion_error) = raised recursion_error

abbrev pub on_error {ℓ} : {A : Type ℓ} → (Error → Error) → Result Error A → Result Error A
on_error handler (ok a) = ok a
on_error handler (err e) = err (handler e)

-- `_require_run`
unfoldable pub require_run : Reader → Str → Result Error (Unit {0})
require_run r run = raise_if (not (str_eq run r.run_id)) (frozen run_mismatch)

-- `read_mapping_snapshot`
unfoldable pub read_mapping_snapshot : Platform → Reader → Str → Result Error MappingSnapshot
read_mapping_snapshot p r run = do
  require_run r run
  raw ← read_bytes (codes "mapping_snapshot.json") r.tree
  payload ← or_frozen record_invalid (loads_decoded p (p.decode_utf8 raw))
  document ← require_exact_keys payload (codes "mappings" ∷ [])
  rows_raw ← at document (codes "mappings")
  rows ← require record_invalid (as_array rows_raw)
  mappings ← on_error as_record_invalid (mappings_of_items p rows)
  uncaught (mapping_snapshot r.run_id mappings (p.sha256 raw))
