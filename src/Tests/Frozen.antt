-- ===== src/Tests/Frozen.antt =====
-- A small frozen package.
use liqvera.Prelude.{
  ℕ, ◌+◌, ◌%◌, false, List, [], ◌∷◌, none, some, Result, ok, err, length, if◌then◌else◌,
}
use liqvera.Prelude.Int.{pos}
use liqvera.Python.{Str, Raised, decode_error, codes, zeros, split_on, starts_with}
use liqvera.Decimal.{Decimal, finite}
use liqvera.Json.{
  Json, null, integer, text, array, object, Items, no_items, item, Members, no_members, member,
}
use liqvera.Json.Builtins.{Builtins}
use liqvera.Package.{Platform, Root, Tree, Entry, directory, regular, package_schema}
use liqvera.Tests.{ascii}

abbrev pub said : Str → Json → Members → Members
said key value rest = member key value rest

-- 64 digits that depend on the length alone.
abbrev pub toy_sha256 : List ℕ → Str
toy_sha256 bytes = (48 + length bytes % 10) ∷ zeros 63

abbrev declared_member : Str → List ℕ → Json
declared_member path bytes =
    object
      (said (codes "path") (text path) (said (codes "sha256") (text (toy_sha256 bytes)) no_members))

abbrev toy_members : Items
toy_members = item (declared_member (codes "control_evidence/records.ndjson") []) (
    item (declared_member (codes "raw_batches/0.bin") (1 ∷ 2 ∷ 3 ∷ [])) (
      item (declared_member (codes "raw_envelopes/records.ndjson") []) (
        item (declared_member (codes "quality_minutes/records.ndjson") (codes "Q")) (
          item (declared_member (codes "mapping_snapshot.json") (codes "S"))
            (item (declared_member (codes "terminal.json") (codes "T")) no_items)))))

abbrev pub toy_manifest : Members
toy_manifest = said (codes "schema") (text package_schema) (
    said (codes "manifest_sha256") (text (toy_sha256 (codes "M\n"))) (
      said (codes "capture_run_id") (text (codes "run")) (
        said (codes "venue_set") (array (item (text (codes "LIGHTER")) no_items)) (
          said (codes "started_at_ms") (integer (pos 0))
            (said (codes "members") (array toy_members) no_members)))))

abbrev toy_minute : Members
toy_minute = said (codes "minute_start_ms") (integer (pos 60_000)) (
    said (codes "venue") (text (codes "LIGHTER")) (
      said (codes "accepted") (integer (pos 2))
        (said (codes "rejected") (integer (pos 0)) no_members)))

abbrev toy_mapping : Members
toy_mapping = said (codes "mapping_id") (text (codes "m1")) (
    said (codes "mapping_version") (text (codes "v1")) (
      said (codes "decision") (text (codes "APPROVED")) (
        said (codes "venue") (text (codes "lighter")) (
          said (codes "symbol") (text (codes "BTC")) (
            said (codes "identity")
              (object (
                said (codes "base_asset") (text (codes "BTC")) (
                  said (codes "quote_asset") (text (codes "USD")) (
                    said (codes "product_kind") (text (codes "PERP")) (
                      said (codes "settlement_asset") (text (codes "USDC"))
                        (said (codes "payoff_kind") (text (codes "LINEAR")) no_members))))))
              (said (codes "evidence_sha256") (text (toy_sha256 [])) (
                said (codes "evidence_reference") (text (codes "ref")) (
                  said (codes "valid_from_ms") (integer (pos 5)) (
                    said (codes "valid_until_ms") (integer (pos 9)) (
                      said (codes "reviewed_contract_multiplier") (text (codes "1")) (
                        said (codes "displayed_size_unit") (text (codes "BTC")) (
                          said (codes "quantity_step") (text (codes "1")) (
                            said (codes "price_tick") (text (codes "1")) (
                              said (codes "price_decimals") null (
                                said (codes "max_price_significant_digits") (integer (pos 5)) (
                                  said (codes "min_quantity") null (
                                    said (codes "min_notional") (text (codes "1")) (
                                      said (codes "lighter_market_index") (integer (pos 1))
                                        no_members))))))))))))))))))

abbrev toy_terminal : Members
toy_terminal =
    said (codes "terminated_at_ms") (integer (pos 120_000))
      (said (codes "status") (text (codes "CLOSED")) no_members)

-- The documents of the package, each by its first letter.
abbrev toy_loads : Str → Result Raised Json
toy_loads s =
    if starts_with (codes "M") s
    then ok (object toy_manifest)
    else if starts_with (codes "Q") s
    then ok (object toy_minute)
    else if starts_with (codes "S") s
    then ok
        (object (said (codes "mappings") (array (item (object toy_mapping) no_items)) no_members))
    else if starts_with (codes "T") s
    then ok (object toy_terminal)
    else err decode_error

abbrev pub one : Decimal
one = record { coefficient = pos 1; places = 0 }

abbrev toy_builtins : Builtins
toy_builtins = record {
  repr = λ j. [];
  int_of_text = λ s. none;
  int_of_real = λ s. ok (pos 0);
  decimal_of_text = λ s. some (finite one);
}

abbrev pub toy_platform : Platform
toy_platform = record {
  unicode = ascii;
  builtins = toy_builtins;
  decode_ascii = λ bytes. some bytes;
  decode_utf8 = λ bytes. some bytes;
  universal_newlines = λ s. s;
  split_lines = λ s. s ∷ [];
  loads = toy_loads;
  dumps = λ j. codes "M";
  sha256 = toy_sha256;
  posix_path = λ s. record {
    is_absolute = starts_with (codes "/") s;
    parts = split_on b'/' s;
    as_posix = s;
  };
  uuid = λ s. some s;
  from_hex = λ s. some s;
}

abbrev file : List ℕ → Entry
file bytes = record { is_link = false; target = regular bytes }

abbrev folder : Entry
folder = record { is_link = false; target = directory }

abbrev pub toy_tree : Tree
toy_tree =
    (codes "control_evidence", folder)
    ∷ (codes "control_evidence/records.ndjson", file [])
    ∷ (codes "manifest.json", file (codes "M\n"))
    ∷ (codes "mapping_snapshot.json", file (codes "S"))
    ∷ (codes "quality_minutes", folder)
    ∷ (codes "quality_minutes/records.ndjson", file (codes "Q"))
    ∷ (codes "raw_batches", folder)
    ∷ (codes "raw_batches/0.bin", file (1 ∷ 2 ∷ 3 ∷ []))
    ∷ (codes "raw_envelopes", folder)
    ∷ (codes "raw_envelopes/records.ndjson", file [])
    ∷ (codes "terminal.json", file (codes "T"))
    ∷ []

abbrev pub toy_root : Root
toy_root = record { itself = folder; tree = toy_tree }
