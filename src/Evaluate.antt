-- ===== src/Evaluate.antt =====
-- `evaluate_frozen_package` of packages/readonly-analyzer/src/liqvera_readonly_analyzer/verdict.py: the
-- reader, the rebuilt books, their binding, the sealed economics and the verdict, with every
-- exception handler between them.
pub mod Reading
pub mod Sealing
pub mod Decided
pub mod Weighed
use liqvera.Prelude.{ℕ, List, [], ◌∷◌, Option, none, some, Result, ok, err, ◌>>=◌, ◌>>◌}
use liqvera.Python.{Str, Raised, type_error, value_error, decode_error, codes}
use liqvera.Json.{Json}
use liqvera.Economics.{SealedStageAEconomics, from_document}
use liqvera.Evidence.{
  CaptureManifest, CaptureTerminal, RawPublicEnvelope, QualityMinuteRecord, MappingSnapshot,
}
use liqvera.Provenance.{MarketMappingEvidence}
use liqvera.Decision.{
  ReasonCode, StageADecision, stage_a_decision, invalid_dataset, invalid_member_set_mismatch,
  invalid_member_hash_mismatch, invalid_manifest, invalid_record, invalid_symlink,
  invalid_unsupported_version, invalid_path,
}
use liqvera.Reconstruction.Book
use liqvera.Reconstruction.Book.{ReconstructedBook}
use liqvera.Reconstruction.Decoding.{Loads}
use liqvera.Reconstruction.Epochs.{reconstruct_books}
use liqvera.Identity
use liqvera.Identity.{identity_bind_error, book_error, bind_reconstructed_books}
use liqvera.Package
use liqvera.Package.{
  Platform, Root, FrozenPackageErrorCode, frozen, raised, loads_decoded, invalid_argument,
  manifest_missing, manifest_non_canonical, manifest_hash_invalid, manifest_hash_mismatch,
  unsupported_version, member_set_mismatch, member_hash_mismatch, member_hash_invalid,
  symlink_forbidden, path_invalid, record_invalid, run_mismatch,
}
use liqvera.Package.Reader.{Reader, open_package}
use liqvera.Package.Mappings.{read_mapping_snapshot}
use liqvera.Package.Records.{
  read_capture_manifest, capture_terminal, iter_control_evidence, iter_raw_batches,
  iter_raw_envelopes, iter_quality_minutes, optional_member_bytes,
}
use liqvera.Verdict
use liqvera.Verdict.{decided, judge}

-- What leaves `evaluate_frozen_package`: an exception that no handler names, or one of the verdict's.
pub data Error : Type 0 where
  escaped : Raised → Error
  judged : Verdict.Error → Error

-- `_map_error`
unfoldable pub map_error : FrozenPackageErrorCode → ReasonCode
map_error invalid_argument = invalid_path
map_error manifest_missing = invalid_manifest
map_error manifest_non_canonical = invalid_manifest
map_error manifest_hash_invalid = invalid_manifest
map_error manifest_hash_mismatch = invalid_manifest
map_error unsupported_version = invalid_unsupported_version
map_error member_set_mismatch = invalid_member_set_mismatch
map_error member_hash_mismatch = invalid_member_hash_mismatch
map_error member_hash_invalid = invalid_member_hash_mismatch
map_error symlink_forbidden = invalid_symlink
map_error path_invalid = invalid_path
map_error record_invalid = invalid_record
map_error run_mismatch = invalid_record

abbrev pub as_judged : Result Verdict.Error StageADecision → Result Error StageADecision
as_judged (ok d) = ok d
as_judged (err e) = err (judged e)

-- `_invalid`
unfoldable pub invalid : FrozenPackageErrorCode → Option Str → Result Error StageADecision
invalid code run = as_judged (decided (stage_a_decision invalid_dataset (map_error code ∷ []) run))

-- `except FrozenPackageError as error: return _invalid(error.code, run)`
unfoldable pub or_invalid {ℓ} :
    {A : Type ℓ}
    → Option Str
    → Result Package.Error A
    → (A → Result Error StageADecision)
    → Result Error StageADecision
or_invalid run (ok a) next = next a
or_invalid run (err (frozen code)) next = invalid code run
or_invalid run (err (raised e)) next = err (escaped e)

-- What the second `try` reads.
pub record Evidence : Type 0 where
  pub manifest : CaptureManifest
  pub terminal : CaptureTerminal
  pub envelopes : List RawPublicEnvelope
  pub minutes : List QualityMinuteRecord
  pub snapshot : MappingSnapshot

unfoldable pub read_evidence : Platform → Reader → Result Package.Error Evidence
read_evidence p reader = do
  manifest ← read_capture_manifest reader reader.run_id
  terminal ← capture_terminal p reader reader.run_id
  control ← iter_control_evidence p reader reader.run_id
  batches ← iter_raw_batches p reader reader.run_id
  envelopes ← iter_raw_envelopes p reader reader.run_id
  minutes ← iter_quality_minutes p reader reader.run_id
  snapshot ← read_mapping_snapshot p reader reader.run_id
  ok (record {
    manifest = manifest;
    terminal = terminal;
    envelopes = envelopes;
    minutes = minutes;
    snapshot = snapshot;
  })

-- `json.loads(payload.decode("utf-8"))`, as the decoders call it
abbrev pub loads_payload : Platform → Loads
loads_payload p payload = loads_decoded p (p.decode_utf8 payload)

-- ReconstructionError is caught, a plain ValueError is not.
abbrev pub or_rebuilt {ℓ} : {A : Type ℓ} → Result Book.Error A → Result Package.Error A
or_rebuilt (ok a) = ok a
or_rebuilt (err Book.reconstruction_error) = err (frozen record_invalid)
or_rebuilt (err Book.value_error) = err (raised value_error)
or_rebuilt (err (Book.escaped e)) = err (raised e)

-- The same, with IdentityBindError.
abbrev pub or_bound {ℓ} : {A : Type ℓ} → Result Identity.Error A → Result Package.Error A
or_bound (ok a) = ok a
or_bound (err identity_bind_error) = err (frozen record_invalid)
or_bound (err Identity.value_error) = err (raised value_error)
or_bound (err (book_error Book.reconstruction_error)) = err (frozen record_invalid)
or_bound (err (book_error Book.value_error)) = err (raised value_error)
or_bound (err (book_error (Book.escaped e))) = err (raised e)

-- The third `try`; the bound books are only tested.
unfoldable pub rebuild_and_bind :
    Platform
    → List RawPublicEnvelope
    → List MarketMappingEvidence
    → Result Package.Error (List ReconstructedBook)
rebuild_and_bind p envelopes mappings = do
  books ← or_rebuilt (reconstruct_books p.unicode (loads_payload p) envelopes mappings)
  or_bound (bind_reconstructed_books p.unicode books mappings)

-- `except (UnicodeDecodeError, json.JSONDecodeError, TypeError, ValueError, ExactError)`
abbrev pub or_economics {ℓ} : {A : Type ℓ} → Result Raised A → Result Package.Error A
or_economics (ok a) = ok a
or_economics (err type_error) = err (frozen record_invalid)
or_economics (err value_error) = err (frozen record_invalid)
or_economics (err decode_error) = err (frozen record_invalid)
or_economics (err e) = err (raised e)

-- `_decode_economics`
unfoldable pub decode_economics : Platform → List ℕ → Result Raised SealedStageAEconomics
decode_economics p raw = do
  document ← loads_decoded p (p.decode_utf8 raw)
  from_document p.unicode document

-- The sealed economics, where the package has the member.
unfoldable pub read_economics :
    Platform → Reader → Result Package.Error (Option SealedStageAEconomics)
read_economics p reader = do
  raw ← optional_member_bytes reader (codes "economics.json")
  elim raw [
    | none ↦ ok none
    | some bytes ↦ do economics ← or_economics (decode_economics p bytes); ok (some economics)
  ]

-- The body, behind the reader.
unfoldable pub evaluate_reader : Platform → Reader → Result Error StageADecision
evaluate_reader p reader = or_invalid (some reader.run_id) (read_evidence p reader) (λ evidence.
    or_invalid (some reader.run_id)
      (rebuild_and_bind p evidence.envelopes evidence.snapshot.mappings)
      (λ books. or_invalid (some reader.run_id) (read_economics p reader) (λ economics. as_judged (
        judge (some reader.run_id) evidence.manifest evidence.terminal evidence.minutes
          economics))))

-- `evaluate_frozen_package`
unfoldable pub evaluate_frozen_package : Platform → Root → Result Error StageADecision
evaluate_frozen_package p root = or_invalid none (open_package p root) (evaluate_reader p)
