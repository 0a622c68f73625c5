-- ===== src/Tests/Opening.antt =====
-- The reader and the decision on the small package.
use liqvera.Prelude.{
  ℕ, ◌+◌, ◌%◌, ◌≡◌, ◌≢◌, refl, All, Bool, true, false, List, [], ◌∷◌, ◌++◌, Option, none, some,
  Result, ok, err, arith, length, if◌then◌else◌,
}
use liqvera.Prelude.Int.{ℤ, pos}
use liqvera.Python.{Str, Raised, decode_error, codes, zeros, split_on, starts_with}
use liqvera.Decimal.{Decimal, finite}
use liqvera.Json.{
  Json, null, boolean, integer, text, array, object, Items, no_items, item, Members, no_members,
  member,
}
use liqvera.Provenance.{approved, MappingFields, MarketMappingEvidence, mapping_evidence}
use liqvera.Decision.{
  StageADecision, ReasonCode, insufficient_evidence, insufficient_acquisition_window,
  insufficient_complete_utc_days, insufficient_strict_healthy_minutes,
  insufficient_independent_episodes,
}
use liqvera.Economics.{SealedStageAEconomics, from_document, to_document}
use liqvera.Economics.Document.{from_document-to_document}
use liqvera.Evidence.{MappingSnapshot}
use liqvera.Package.{Platform, Error, Root, Tree, Entry, Target, directory, regular, package_schema}
use liqvera.Package.Reader.{Reader, open_package}
use liqvera.Package.Intact.{IsIntact, open_package-IsIntact}
use liqvera.Package.Mappings.{read_mapping_snapshot}
use liqvera.Package.Reviewed.{IsSnapshotOf, read_mapping_snapshot-IsSnapshotOf}
use liqvera.Evaluate.{evaluate_frozen_package}
use liqvera.Evaluate.Decided.{Outcome, evaluate_frozen_package-Outcome}
use liqvera.Verdict.Gates.{document}
use liqvera.Tests.{ascii, ascii-IsUnicode, amount, fits}
use liqvera.Tests.Frozen.{toy_sha256, toy_manifest, one, toy_platform, toy_tree, toy_root}

evaluate_frozen_package-Outcome_example :
    Outcome toy_platform toy_root (evaluate_frozen_package toy_platform toy_root)
evaluate_frozen_package-Outcome_example = evaluate_frozen_package-Outcome toy_platform toy_root

abbrev toy_reader : Reader
toy_reader = record {
  tree = toy_tree;
  run_id = codes "run";
  document = toy_manifest;
  declared =
      (codes "control_evidence/records.ndjson", toy_sha256 [])
      ∷ (codes "raw_batches/0.bin", toy_sha256 (1 ∷ 2 ∷ 3 ∷ []))
      ∷ (codes "raw_envelopes/records.ndjson", toy_sha256 [])
      ∷ (codes "quality_minutes/records.ndjson", toy_sha256 (codes "Q"))
      ∷ (codes "mapping_snapshot.json", toy_sha256 (codes "S"))
      ∷ (codes "terminal.json", toy_sha256 (codes "T"))
      ∷ [];
}

toy-opens : open_package toy_platform toy_root ≡ ok toy_reader
unfolding open_package liqvera.Package.Reader.require_root liqvera.Package.Reader.manifest_bytes
    liqvera.Package.entry_at liqvera.Python.str_eq liqvera.Package.decode_canonical_json
    liqvera.Package.ends_with starts_with liqvera.Package.Reader.require_manifest liqvera.Json.get
    zeros liqvera.Package.Reader.declare_all liqvera.Package.Reader.declare
    liqvera.Package.require_relative_member split_on liqvera.Python.is_sha256
    liqvera.Package.Reader.require_members liqvera.Json.find liqvera.Json.remove
    liqvera.Package.Reader.check_members liqvera.Package.Reader.run_id_of
    liqvera.Package.Reader.same_set liqvera.Package.read_bytes liqvera.Package.scan_regular_files
    liqvera.Package.scan_target liqvera.Python.cons_head
toy-opens = refl

open_package-IsIntact_example : IsIntact toy_platform toy_reader
open_package-IsIntact_example = open_package-IsIntact toy_platform toy_root toy-opens

abbrev toy_fields : MappingFields
toy_fields = record {
  mapping_id = codes "m1";
  mapping_version = codes "v1";
  decision = approved;
  venue = codes "lighter";
  symbol = codes "BTC";
  identity = record {
    base_asset = codes "BTC";
    quote_asset = codes "USD";
    product_kind = codes "PERP";
    settlement_asset = codes "USDC";
    payoff_kind = codes "LINEAR";
  };
  evidence_sha256 = toy_sha256 [];
  evidence_reference = codes "ref";
  valid_from_ms = pos 5;
  valid_until_ms = some (pos 9);
  reviewed_contract_multiplier = finite one;
  displayed_size_unit = codes "BTC";
  quantity_step = finite one;
  price_tick = some (finite one);
  price_decimals = null;
  max_price_significant_digits = integer (pos 5);
  min_quantity = none;
  min_notional = finite one;
  lighter_market_index = some (pos 1);
}

abbrev pub toy_evidence : MarketMappingEvidence
toy_evidence = record {
  mapping_id = codes "m1";
  mapping_version = codes "v1";
  decision = approved;
  venue = codes "lighter";
  symbol = codes "BTC";
  identity = record {
    base_asset = codes "BTC";
    quote_asset = codes "USD";
    product_kind = codes "PERP";
    settlement_asset = codes "USDC";
    payoff_kind = codes "LINEAR";
  };
  evidence_sha256 = toy_sha256 [];
  evidence_reference = codes "ref";
  valid_from_ms = 5;
  valid_until_ms = some 9;
  reviewed_contract_multiplier = one;
  displayed_size_unit = codes "BTC";
  quantity_step = one;
  price_tick = some one;
  price_decimals = none;
  max_price_significant_digits = some 5;
  min_quantity = none;
  min_notional = one;
  lighter_market_index = some 1;
}

toy-admits : mapping_evidence toy_fields ≡ ok toy_evidence
unfolding mapping_evidence zeros liqvera.Python.is_sha256 liqvera.Provenance.nonempty_ascii
    liqvera.Provenance.require_until liqvera.Provenance.require_positive_decimal liqvera.Decimal.le
    liqvera.Provenance.require_optional_positive_decimal
    liqvera.Provenance.require_optional_nonnegative_int
    liqvera.Provenance.require_optional_positive_int liqvera.Provenance.require_market_index
    liqvera.Prelude.Int.◌*ℤ◌
toy-admits = refl

abbrev toy_snapshot : MappingSnapshot
toy_snapshot = record {
  capture_run_id = codes "run";
  mappings = toy_evidence ∷ [];
  snapshot_sha256 = toy_sha256 (codes "S");
}

toy-reads : read_mapping_snapshot toy_platform toy_reader (codes "run") ≡ ok toy_snapshot
unfolding read_mapping_snapshot liqvera.Package.Mappings.require_run liqvera.Python.str_eq
    liqvera.Package.entry_at liqvera.Package.read_bytes starts_with
    liqvera.Package.Mappings.require_exact_keys liqvera.Json.has_keys liqvera.Json.keys
    liqvera.Json.find liqvera.Package.Mappings.mappings_of_items
    liqvera.Package.Mappings.mapping_from_document liqvera.Package.Mappings.mapping_of_row
    liqvera.Package.Mappings.identity_of liqvera.Package.Mappings.until_of
    liqvera.Package.Mappings.lighter_index_of liqvera.Package.Mappings.index_of_value
    liqvera.Package.Mappings.mapping_decision liqvera.Package.Mappings.decimal_string
    liqvera.Package.Mappings.optional_decimal_string mapping_evidence zeros liqvera.Python.is_sha256
    liqvera.Provenance.nonempty_ascii liqvera.Provenance.require_until
    liqvera.Provenance.require_positive_decimal liqvera.Decimal.le
    liqvera.Provenance.require_optional_positive_decimal
    liqvera.Provenance.require_optional_nonnegative_int
    liqvera.Provenance.require_optional_positive_int liqvera.Provenance.require_market_index
    liqvera.Evidence.mapping_snapshot liqvera.Prelude.Int.◌*ℤ◌
toy-reads = refl

read_mapping_snapshot-IsSnapshotOf_example : IsSnapshotOf toy_platform toy_reader toy_snapshot
read_mapping_snapshot-IsSnapshotOf_example =
    read_mapping_snapshot-IsSnapshotOf toy_platform toy_reader (codes "run") toy-reads

abbrev toy_reasons : List ReasonCode
toy_reasons =
    insufficient_acquisition_window ∷ insufficient_complete_utc_days
    ∷ insufficient_strict_healthy_minutes ∷ insufficient_independent_episodes ∷ []

abbrev pub toy_decision : StageADecision
toy_decision = document insufficient_evidence toy_reasons (some (codes "run"))

pub toy-evaluates : evaluate_frozen_package toy_platform toy_root ≡ ok toy_decision
unfolding evaluate_frozen_package liqvera.Evaluate.or_invalid liqvera.Evaluate.evaluate_reader
    liqvera.Evaluate.read_evidence liqvera.Evaluate.rebuild_and_bind liqvera.Evaluate.read_economics
    liqvera.Package.Records.read_capture_manifest liqvera.Package.Records.texts_of_items
    liqvera.Package.Records.capture_terminal liqvera.Package.Records.read_text
    liqvera.Package.Records.rows_of_lines liqvera.Package.Records.read_ndjson
    liqvera.Package.Records.build_all liqvera.Package.Records.control_of_row
    liqvera.Package.Records.iter_control_evidence liqvera.Package.Records.iter_raw_batches
    liqvera.Package.Records.envelope_of_row liqvera.Package.Records.iter_raw_envelopes
    liqvera.Package.Records.minute_of_row liqvera.Package.Records.iter_quality_minutes
    liqvera.Package.Records.optional_member_bytes liqvera.Evidence.capture_manifest
    liqvera.Evidence.capture_terminal_of liqvera.Evidence.control_evidence_record
    liqvera.Evidence.raw_batch_record liqvera.Evidence.raw_public_envelope
    liqvera.Evidence.quality_minute_record liqvera.Verdict.judge
    liqvera.Verdict.insufficiency_reasons liqvera.Verdict.complete_utc_days
    liqvera.Verdict.cover_all liqvera.Verdict.cover liqvera.Verdict.add_to_set
    liqvera.Verdict.full_days liqvera.Verdict.strict_healthy_minutes liqvera.Verdict.healthy_from
    liqvera.Verdict.when liqvera.Decision.stage_a_decision liqvera.Decision.reason_class
    liqvera.Decision.insert_reason liqvera.Decision.ordered liqvera.Decision.reason_index
    liqvera.Reconstruction.Epochs.reconstruct_books liqvera.Reconstruction.Epochs.rebuild
    liqvera.Identity.bind_reconstructed_books open_package liqvera.Package.Reader.require_root
    liqvera.Package.Reader.manifest_bytes liqvera.Package.entry_at liqvera.Python.str_eq
    liqvera.Package.decode_canonical_json liqvera.Package.ends_with starts_with
    liqvera.Package.Reader.require_manifest liqvera.Json.get zeros
    liqvera.Package.Reader.declare_all liqvera.Package.Reader.declare
    liqvera.Package.require_relative_member split_on liqvera.Python.is_sha256
    liqvera.Package.Reader.require_members liqvera.Json.find liqvera.Json.remove
    liqvera.Package.Reader.check_members liqvera.Package.Reader.run_id_of
    liqvera.Package.Reader.same_set liqvera.Package.read_bytes liqvera.Package.scan_regular_files
    liqvera.Package.scan_target liqvera.Python.cons_head read_mapping_snapshot
    liqvera.Package.Mappings.require_run liqvera.Package.Mappings.require_exact_keys
    liqvera.Json.has_keys liqvera.Json.keys liqvera.Package.Mappings.mappings_of_items
    liqvera.Package.Mappings.mapping_from_document liqvera.Package.Mappings.mapping_of_row
    liqvera.Package.Mappings.identity_of liqvera.Package.Mappings.until_of
    liqvera.Package.Mappings.lighter_index_of liqvera.Package.Mappings.index_of_value
    liqvera.Package.Mappings.mapping_decision liqvera.Package.Mappings.decimal_string
    liqvera.Package.Mappings.optional_decimal_string mapping_evidence
    liqvera.Provenance.nonempty_ascii liqvera.Provenance.require_until
    liqvera.Provenance.require_positive_decimal liqvera.Decimal.le
    liqvera.Provenance.require_optional_positive_decimal
    liqvera.Provenance.require_optional_nonnegative_int
    liqvera.Provenance.require_optional_positive_int liqvera.Provenance.require_market_index
    liqvera.Evidence.mapping_snapshot liqvera.Prelude.Int.◌*ℤ◌
toy-evaluates = refl

abbrev toy_economics : SealedStageAEconomics
toy_economics = record {
  independent_episode_count = 21;
  total_net = amount (pos 150_000_000);
  median_net = amount (pos 2);
  usd_1000_net = amount (pos 3);
  usd_5000_net = amount (pos 0);
  largest_episode_concentration = amount (pos 20_000_000);
  survived_delay_300ms = true;
  survived_delay_500ms = true;
  survived_both_fee_cases = false;
}

from_document-to_document_example :
    from_document ascii (object (to_document ascii toy_economics)) ≡ ok toy_economics
from_document-to_document_example =
    from_document-to_document ascii ascii-IsUnicode toy_economics (record {
      total = fits 150_000_000 (omega arith);
      median = fits 2 (omega arith);
      thousand = fits 3 (omega arith);
      five_thousand = fits 0 (omega arith);
      concentration = fits 20_000_000 (omega arith);
    })
