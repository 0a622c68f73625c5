-- ===== src/Evaluate/Reading.antt =====
-- The reads of `evaluate_frozen_package`, all of them or up to the first that fails.
use liqvera.Prelude.{
  ◌≡◌, ap, subst, List, [], ◌∷◌, Option, none, some, Result, ok, err, ◌>>=◌, >>=-eq-ok,
  ok-injective,
}
use liqvera.Evidence.{ControlEvidenceRecord, RawBatchRecord}
use liqvera.Package
use liqvera.Package.{Platform}
use liqvera.Package.Reader.{Reader}
use liqvera.Package.Mappings.{read_mapping_snapshot}
use liqvera.Package.Records.{
  read_capture_manifest, capture_terminal, iter_control_evidence, iter_raw_batches,
  iter_raw_envelopes, iter_quality_minutes,
}
use liqvera.Evaluate.{Evidence, read_evidence}

-- Each part of the evidence is what the reader's method returned for the run.
pub record IsRead (p : Platform) (reader : Reader) (evidence : Evidence) : Type 0 where
  pub manifest : read_capture_manifest reader reader.run_id ≡ ok evidence.manifest
  pub terminal : capture_terminal p reader reader.run_id ≡ ok evidence.terminal
  pub control : List ControlEvidenceRecord
  pub controlled : iter_control_evidence p reader reader.run_id ≡ ok control
  pub batches : List RawBatchRecord
  pub batched : iter_raw_batches p reader reader.run_id ≡ ok batches
  pub envelopes : iter_raw_envelopes p reader reader.run_id ≡ ok evidence.envelopes
  pub minutes : iter_quality_minutes p reader reader.run_id ≡ ok evidence.minutes
  pub snapshot : read_mapping_snapshot p reader reader.run_id ≡ ok evidence.snapshot

pub read_evidence-IsRead :
    (p : Platform) (reader : Reader) {evidence : Evidence}
    → read_evidence p reader ≡ ok evidence
    → IsRead p reader evidence
unfolding read_evidence
read_evidence-IsRead p reader {evidence} h =
    let (manifest, e0, h0) =
      >>=-eq-ok (read_capture_manifest reader reader.run_id) _ {last = evidence} h in
    let (terminal, e1, h1) =
      >>=-eq-ok (capture_terminal p reader reader.run_id) _ {last = evidence} h0 in
    let (control, e2, h2) =
      >>=-eq-ok (iter_control_evidence p reader reader.run_id) _ {last = evidence} h1 in
    let (batches, e3, h3) =
      >>=-eq-ok (iter_raw_batches p reader reader.run_id) _ {last = evidence} h2 in
    let (envelopes, e4, h4) =
      >>=-eq-ok (iter_raw_envelopes p reader reader.run_id) _ {last = evidence} h3 in
    let (minutes, e5, h5) =
      >>=-eq-ok (iter_quality_minutes p reader reader.run_id) _ {last = evidence} h4 in
    let (snapshot, e6, made) =
      >>=-eq-ok (read_mapping_snapshot p reader reader.run_id) _ {last = evidence} h5 in
    subst (IsRead p reader) (ok-injective made) (record {
      manifest = e0;
      terminal = e1;
      control = control;
      controlled = e2;
      batches = batches;
      batched = e3;
      envelopes = e4;
      minutes = e5;
      snapshot = e6;
    })

-- The error of a result, where it has one
abbrev pub failure : {E A : Type 0} → Result E A → Option E
failure (ok a) = none
failure (err e) = some e

abbrev pub first_failure : {E : Type 0} → List (Option E) → Option E
first_failure [] = none
first_failure (none ∷ later) = first_failure later
first_failure (some e ∷ later) = some e

-- The seven reads, in their order
abbrev pub failures : Platform → Reader → List (Option Package.Error)
failures p reader =
    failure (read_capture_manifest reader reader.run_id)
    ∷ failure (capture_terminal p reader reader.run_id)
    ∷ failure (iter_control_evidence p reader reader.run_id)
    ∷ failure (iter_raw_batches p reader reader.run_id)
    ∷ failure (iter_raw_envelopes p reader reader.run_id)
    ∷ failure (iter_quality_minutes p reader reader.run_id)
    ∷ failure (read_mapping_snapshot p reader reader.run_id)
    ∷ []

failed-first :
    {E A B : Type 0} (r : Result E A) (then : A → Result E B) (later : List (Option E)) {e : E}
    → (r >>= then) ≡ err e
    → ((a : A) → then a ≡ err e → first_failure later ≡ some e)
    → first_failure (failure r ∷ later) ≡ some e
failed-first (ok a) then later h goes_on = goes_on a h
failed-first (err x) then later {e} h goes_on = let same : x ≡ e = cc in ap (λ y. some y) same

pub read_evidence-first :
    (p : Platform) (reader : Reader) {e : Package.Error}
    → read_evidence p reader ≡ err e
    → first_failure (failures p reader) ≡ some e
unfolding read_evidence
read_evidence-first p reader h =
    failed-first (read_capture_manifest reader reader.run_id) _ _ h (λ manifest h0.
      failed-first (capture_terminal p reader reader.run_id) _ _ h0 (λ terminal h1.
        failed-first (iter_control_evidence p reader reader.run_id) _ _ h1 (λ control h2.
          failed-first (iter_raw_batches p reader reader.run_id) _ _ h2 (λ batches h3.
            failed-first (iter_raw_envelopes p reader reader.run_id) _ _ h3 (λ envelopes h4.
              failed-first (iter_quality_minutes p reader reader.run_id) _ _ h4 (λ minutes h5.
                failed-first (read_mapping_snapshot p reader reader.run_id) _ _ h5
                  (λ snapshot h6. cc)))))))
