-- ===== src/Package/Records.antt =====
-- The methods of `FrozenPackageEvidenceReader` that read one member, packages/readonly-analyzer/src/
-- liqvera_readonly_analyzer/frozen_package/reader.py. An iterator is the list of what it yields: the
-- analyzer makes a tuple of each.
use liqvera.Prelude.{
  ℕ, List, [], ◌∷◌, Option, none, some, Result, ok, ◌>>=◌, ◌>>◌, raise_if, if◌then◌else◌,
}
use liqvera.Prelude.Int.{pos}
use liqvera.Python.{Str, value_error, decode_error, codes, is_empty}
use liqvera.Json.{
  text, Items, no_items, item, Members, get, as_array, as_integer, as_object, member_of,
}
use liqvera.Json.Builtins.{subscript, to_text, to_int, value_or_raise}
use liqvera.Evidence.{
  CaptureManifest, CaptureTerminal, ControlEvidenceRecord, RawBatchRecord, RawPublicEnvelope,
  QualityMinuteRecord, capture_manifest, capture_terminal_of, control_evidence_record,
  raw_batch_record, raw_public_envelope, quality_minute_record,
}
use liqvera.Package.{Platform, Error, frozen, record_invalid, package_schema, uncaught, read_bytes}
use liqvera.Package.Reader.{Reader, require, paths}
use liqvera.Package.Mappings.{text_at, int_at, require_run}

-- `optional_member_bytes`
unfoldable pub optional_member_bytes : Reader → Str → Result Error (Option (List ℕ))
optional_member_bytes r relative =
    if member_of relative (paths r.declared)
    then (do bytes ← read_bytes relative r.tree; ok (some bytes))
    else ok none

-- `venues`, where every item is a text
unfoldable pub texts_of_items : Items → Option (List Str)
texts_of_items no_items = some []
texts_of_items (item (text s) rest) = elim (texts_of_items rest) [
  | none ↦ none
  | some texts ↦ some (s ∷ texts)
]
texts_of_items (item raw rest) = none

-- `read_capture_manifest`
unfoldable pub read_capture_manifest : Reader → Str → Result Error CaptureManifest
read_capture_manifest r run = do
  require_run r run
  items ← require record_invalid (as_array (get (codes "venue_set") r.document))
  venues ← require record_invalid (texts_of_items items)
  raise_if (is_empty venues) (frozen record_invalid)
  started ← require record_invalid (as_integer (get (codes "started_at_ms") r.document))
  uncaught (capture_manifest r.run_id started venues package_schema)

-- `path.read_text(encoding="utf-8")`
unfoldable pub read_text : Platform → Reader → Str → Result Error Str
read_text p r path = do
  bytes ← read_bytes path r.tree
  decoded ← uncaught (value_or_raise decode_error (p.decode_utf8 bytes))
  ok (p.universal_newlines decoded)

-- `capture_terminal`
unfoldable pub capture_terminal : Platform → Reader → Str → Result Error CaptureTerminal
capture_terminal p r run = do
  require_run r run
  content ← read_text p r (codes "terminal.json")
  payload ← uncaught (p.loads content)
  terminated_raw ← uncaught (subscript (codes "terminated_at_ms") payload)
  terminated ← uncaught (to_int p.builtins terminated_raw)
  status_raw ← uncaught (subscript (codes "status") payload)
  uncaught (capture_terminal_of r.run_id terminated (to_text p.builtins status_raw))

-- The loop of `_read_ndjson`
unfoldable pub rows_of_lines : Platform → List Str → Result Error (List Members)
rows_of_lines p [] = ok []
rows_of_lines p (line ∷ lines) = do
  raw ← uncaught (p.loads line)
  row ← require record_invalid (as_object raw)
  rows ← rows_of_lines p lines
  ok (row ∷ rows)

-- `_read_ndjson`
unfoldable pub read_ndjson : Platform → Reader → Str → Result Error (List Members)
read_ndjson p r path = do
  content ← read_text p r path
  if is_empty content then ok [] else rows_of_lines p (p.split_lines content)

-- `[build(row) for row in rows]`
unfoldable pub build_all {ℓ} :
    {A : Type ℓ} → (Members → Result Error A) → List Members → Result Error (List A)
build_all build [] = ok []
build_all build (row ∷ rows) = do built ← build row; rest ← build_all build rows; ok (built ∷ rest)

unfoldable pub control_of_row : Platform → Str → Members → Result Error ControlEvidenceRecord
control_of_row p run row = do
  recorded ← int_at p row (codes "recorded_at_ms")
  kind ← text_at p row (codes "kind")
  digest ← text_at p row (codes "payload_sha256")
  uncaught (control_evidence_record run recorded kind digest)

-- `iter_control_evidence`
unfoldable pub iter_control_evidence :
    Platform → Reader → Str → Result Error (List ControlEvidenceRecord)
iter_control_evidence p r run = do
  require_run r run
  rows ← read_ndjson p r (codes "control_evidence/records.ndjson")
  build_all (control_of_row p r.run_id) rows

-- `iter_raw_batches`
unfoldable pub iter_raw_batches : Platform → Reader → Str → Result Error (List RawBatchRecord)
iter_raw_batches p r run = do
  require_run r run
  payload ← read_bytes (codes "raw_batches/0.bin") r.tree
  batch ← uncaught (raw_batch_record r.run_id (pos 0) (p.sha256 payload) (p.sha256 payload) payload)
  ok (batch ∷ [])

unfoldable pub envelope_of_row : Platform → Str → Members → Result Error RawPublicEnvelope
envelope_of_row p run row = do
  hex ← text_at p row (codes "payload_hex")
  body ← uncaught (value_or_raise value_error (p.from_hex hex))
  index ← int_at p row (codes "envelope_index")
  observed ← int_at p row (codes "observed_at_ms")
  venue ← text_at p row (codes "venue")
  uncaught (raw_public_envelope run index observed venue (p.sha256 body) body)

-- `iter_raw_envelopes`
unfoldable pub iter_raw_envelopes : Platform → Reader → Str → Result Error (List RawPublicEnvelope)
iter_raw_envelopes p r run = do
  require_run r run
  rows ← read_ndjson p r (codes "raw_envelopes/records.ndjson")
  build_all (envelope_of_row p r.run_id) rows

unfoldable pub minute_of_row : Platform → Str → Members → Result Error QualityMinuteRecord
minute_of_row p run row = do
  start ← int_at p row (codes "minute_start_ms")
  venue ← text_at p row (codes "venue")
  accepted ← int_at p row (codes "accepted")
  rejected ← int_at p row (codes "rejected")
  uncaught (quality_minute_record run start venue accepted rejected)

-- `iter_quality_minutes`
unfoldable pub iter_quality_minutes :
    Platform → Reader → Str → Result Error (List QualityMinuteRecord)
iter_quality_minutes p r run = do
  require_run r run
  rows ← read_ndjson p r (codes "quality_minutes/records.ndjson")
  build_all (minute_of_row p r.run_id) rows
