-- ===== src/Evidence.antt =====
-- The records of packages/contracts/src/liqvera_contracts/evidence.py. Timestamps, indices and counts are not
-- negative: the function that is named for a record stands for the call of its constructor, which
-- tests it. A UUID is its canonical text.
use liqvera.Prelude.{ℕ, not, ◌||◌, List, Result, ok, err, ◌>>=◌, ◌>>◌, raise_if}
use liqvera.Prelude.Int.{ℤ, pos, negsuc}
use liqvera.Python.{Str, Raised, value_error, is_empty, is_sha256}
use liqvera.Provenance.{MarketMappingEvidence, require_timestamp}

pub record CaptureManifest : Type 0 where
  pub capture_run_id : Str
  pub started_at_ms : ℕ
  pub venue_set : List Str
  pub schema_version : Str

pub record CaptureTerminal : Type 0 where
  pub capture_run_id : Str
  pub terminated_at_ms : ℕ
  pub status : Str

pub record ControlEvidenceRecord : Type 0 where
  pub capture_run_id : Str
  pub recorded_at_ms : ℕ
  pub kind : Str
  pub payload_sha256 : Str

pub record RawBatchRecord : Type 0 where
  pub capture_run_id : Str
  pub batch_index : ℕ
  pub stored_sha256 : Str
  pub content_sha256 : Str
  pub payload : List ℕ

pub record QualityMinuteRecord : Type 0 where
  pub capture_run_id : Str
  pub minute_start_ms : ℕ
  pub venue : Str
  pub accepted : ℕ
  pub rejected : ℕ

-- The payload is its bytes.
pub record RawPublicEnvelope : Type 0 where
  pub capture_run_id : Str
  pub envelope_index : ℕ
  pub observed_at_ms : ℕ
  pub venue : Str
  pub payload_sha256 : Str
  pub payload : List ℕ

pub record MappingSnapshot : Type 0 where
  pub capture_run_id : Str
  pub mappings : List MarketMappingEvidence
  pub snapshot_sha256 : Str

-- The test that a count or an index is not negative.
abbrev pub require_count : ℤ → Result Raised ℕ
require_count (pos n) = ok n
require_count (negsuc n) = err value_error

-- `_require_sha256`
abbrev pub require_sha256 : Str → Result Raised (Unit {0})
require_sha256 s = raise_if (not (is_sha256 s)) value_error

unfoldable pub capture_manifest : Str → ℤ → List Str → Str → Result Raised CaptureManifest
capture_manifest run started_at_ms venue_set schema_version = do
  started ← require_timestamp started_at_ms
  raise_if (is_empty venue_set || is_empty schema_version) value_error
  ok (record {
    capture_run_id = run;
    started_at_ms = started;
    venue_set = venue_set;
    schema_version = schema_version;
  })

unfoldable pub capture_terminal_of : Str → ℤ → Str → Result Raised CaptureTerminal
capture_terminal_of run terminated_at_ms status = do
  terminated ← require_timestamp terminated_at_ms
  raise_if (is_empty status) value_error
  ok (record { capture_run_id = run; terminated_at_ms = terminated; status = status })

unfoldable pub control_evidence_record : Str → ℤ → Str → Str → Result Raised ControlEvidenceRecord
control_evidence_record run recorded_at_ms kind payload_sha256 = do
  recorded ← require_timestamp recorded_at_ms
  raise_if (is_empty kind) value_error
  require_sha256 payload_sha256
  ok (record {
    capture_run_id = run;
    recorded_at_ms = recorded;
    kind = kind;
    payload_sha256 = payload_sha256;
  })

unfoldable pub raw_batch_record : Str → ℤ → Str → Str → List ℕ → Result Raised RawBatchRecord
raw_batch_record run batch_index stored content payload = do
  index ← require_count batch_index
  require_sha256 stored
  require_sha256 content
  ok (record {
    capture_run_id = run;
    batch_index = index;
    stored_sha256 = stored;
    content_sha256 = content;
    payload = payload;
  })

unfoldable pub raw_public_envelope :
    Str → ℤ → ℤ → Str → Str → List ℕ → Result Raised RawPublicEnvelope
raw_public_envelope run envelope_index observed_at_ms venue payload_sha256 payload = do
  index ← require_count envelope_index
  observed ← require_timestamp observed_at_ms
  raise_if (is_empty venue) value_error
  require_sha256 payload_sha256
  ok (record {
    capture_run_id = run;
    envelope_index = index;
    observed_at_ms = observed;
    venue = venue;
    payload_sha256 = payload_sha256;
    payload = payload;
  })

unfoldable pub quality_minute_record : Str → ℤ → Str → ℤ → ℤ → Result Raised QualityMinuteRecord
quality_minute_record run minute_start_ms venue accepted rejected = do
  start ← require_timestamp minute_start_ms
  raise_if (is_empty venue) value_error
  good ← require_count accepted
  bad ← require_count rejected
  ok (record {
    capture_run_id = run;
    minute_start_ms = start;
    venue = venue;
    accepted = good;
    rejected = bad;
  })

unfoldable pub mapping_snapshot :
    Str → List MarketMappingEvidence → Str → Result Raised MappingSnapshot
mapping_snapshot run mappings snapshot_sha256 = do
  require_sha256 snapshot_sha256
  ok (record { capture_run_id = run; mappings = mappings; snapshot_sha256 = snapshot_sha256 })
