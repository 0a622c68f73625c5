-- ===== src/Package/Reviewed.antt =====
-- What `read_mapping_snapshot` establishes of the mappings.
use liqvera.Prelude.{
  ℕ, ap, ◌≡◌, refl, List, [], ◌∷◌, All, Result, ok, err, >>=-eq-ok, ok-injective, subst, Ensures,
  ensured,
}
use liqvera.Python.{Str, codes}
use liqvera.Json.{Json, Items, no_items, item, as_array}
use liqvera.Provenance.{MarketMappingEvidence, MappingFields, mapping_evidence}
use liqvera.Provenance.Reviewed.{IsReviewed, mapping_evidence-IsReviewed}
use liqvera.Evidence.{MappingSnapshot, mapping_snapshot, require_sha256}
use liqvera.Package.{
  Platform, Error, record_invalid, uncaught, uncaught-ok, or_frozen, loads_decoded, read_bytes,
}
use liqvera.Package.Reader.{Reader, require}
use liqvera.Package.Mappings.{
  mapping_of_row, mapping_from_document, mappings_of_items, read_mapping_snapshot, on_error,
  as_record_invalid, require_run, require_exact_keys, at,
}

built : (f : MappingFields) → Ensures IsReviewed (uncaught (mapping_evidence f))
built f = record {
  holds = λ m h. mapping_evidence-IsReviewed f (uncaught-ok (mapping_evidence f) h);
}

ruleset reviewed = (ensured, built)

mapping_from_document-Ensures :
    (p : Platform) (raw : Json) → Ensures IsReviewed (mapping_from_document p raw)
unfolding mapping_from_document mapping_of_row
mapping_from_document-Ensures p raw = search reviewed depth 40

mappings-All :
    (p : Platform) (items : Items) {mappings : List MarketMappingEvidence}
    → mappings_of_items p items ≡ ok mappings
    → All IsReviewed mappings
unfolding mappings_of_items
mappings-All p no_items h = subst (All IsReviewed) (ok-injective h) tt
mappings-All p (item raw rest) {mappings} h =
    let (m, read, h0) = >>=-eq-ok (mapping_from_document p raw) _ {last = mappings} h in
    let (later, others, made) = >>=-eq-ok (mappings_of_items p rest) _ {last = mappings} h0 in
    subst (All IsReviewed) (ok-injective made)
      ((mapping_from_document-Ensures p raw).holds m read, mappings-All p rest others)

on_error-ok :
    {A : Type 0} (handler : Error → Error) (r : Result Error A) {a : A}
    → on_error handler r ≡ ok a
    → r ≡ ok a
on_error-ok handler (ok x) h = let k = ok-injective h in ap (λ y. ok y) k
on_error-ok handler (err e) h = cc

-- Every mapping is reviewed, and the hash is that of the member's bytes.
pub record IsSnapshotOf (p : Platform) (r : Reader) (s : MappingSnapshot) : Type 0 where
  pub reviewed : All IsReviewed s.mappings
  pub bytes : List ℕ
  pub readable : read_bytes (codes "mapping_snapshot.json") r.tree ≡ ok bytes
  pub hashed : s.snapshot_sha256 ≡ p.sha256 bytes
  pub same_run : s.capture_run_id ≡ r.run_id

mapping_snapshot-eq :
    (run : Str) (mappings : List MarketMappingEvidence) (digest : Str) {s : MappingSnapshot}
    → mapping_snapshot run mappings digest ≡ ok s
    → (record { capture_run_id = run; mappings = mappings; snapshot_sha256 = digest }) ≡ s
unfolding mapping_snapshot
mapping_snapshot-eq run mappings digest {s} h =
    let (u, tested, made) = >>=-eq-ok (require_sha256 digest) _ {last = s} h in ok-injective made

-- Where read_mapping_snapshot returns, whatever the platform's functions returned, every mapping
-- satisfies the tests of MarketMappingEvidence, the snapshot's hash is that of the bytes of
-- mapping_snapshot.json, and its run is the reader's.
pub read_mapping_snapshot-IsSnapshotOf :
    (p : Platform) (r : Reader) (run : Str) {s : MappingSnapshot}
    → read_mapping_snapshot p r run ≡ ok s
    → IsSnapshotOf p r s
unfolding read_mapping_snapshot
read_mapping_snapshot-IsSnapshotOf p r run {s} h =
    let (u, e0, h0) = >>=-eq-ok (require_run r run) _ {last = s} h in
    let (raw, readable, h1) =
      >>=-eq-ok (read_bytes (codes "mapping_snapshot.json") r.tree) _ {last = s} h0 in
    let (payload, e2, h2) =
      >>=-eq-ok (or_frozen record_invalid (loads_decoded p (p.decode_utf8 raw))) _ {last = s} h1 in
    let (document, e3, h3) =
      >>=-eq-ok (require_exact_keys payload (codes "mappings" ∷ [])) _ {last = s} h2 in
    let (rows_raw, e4, h4) = >>=-eq-ok (at document (codes "mappings")) _ {last = s} h3 in
    let (rows, e5, h5) = >>=-eq-ok (require record_invalid (as_array rows_raw)) _ {last = s} h4 in
    let (mappings, read, h6) =
      >>=-eq-ok (on_error as_record_invalid (mappings_of_items p rows)) _ {last = s} h5 in
    subst (IsSnapshotOf p r)
      (mapping_snapshot-eq r.run_id mappings (p.sha256 raw)
        (uncaught-ok (mapping_snapshot r.run_id mappings (p.sha256 raw)) h6))
      (record {
        reviewed =
            mappings-All p rows (on_error-ok as_record_invalid (mappings_of_items p rows) read);
        bytes = raw;
        readable = readable;
        hashed = refl;
        same_run = refl;
      })
