-- ===== src/Evaluate/Decided.antt =====
-- The decisions of `evaluate_frozen_package`, for every package.
use liqvera.Prelude.{
  ◌≡◌, refl, sym, subst, List, [], ◌∷◌, Option, none, some, All, Result, ok, err, ◌>>=◌,
  ok-injective,
}
use liqvera.Python.{Str, Raised, value_error}
use liqvera.Economics.{SealedStageAEconomics}
use liqvera.Market.Admission.{IsBook}
use liqvera.Decision.{StageADecision, reason_class, invalid_dataset}
use liqvera.Reconstruction.Book
use liqvera.Reconstruction.Book.{ReconstructedBook}
use liqvera.Reconstruction.Epochs.{reconstruct_books}
use liqvera.Reconstruction.Numbered.{Numbered, Increasing, reconstruct_books-Numbered}
use liqvera.Identity
use liqvera.Identity.{identity_bind_error, book_error, bind_reconstructed_books}
use liqvera.Identity.Binding.{Bound, bind_reconstructed_books-Bound}
use liqvera.Package
use liqvera.Package.{Platform, Root, FrozenPackageErrorCode, frozen, raised, record_invalid}
use liqvera.Package.Reader.{Reader, open_package}
use liqvera.Package.Intact.{IsIntact, open_package-IsIntact}
use liqvera.Package.Reviewed.{IsSnapshotOf, read_mapping_snapshot-IsSnapshotOf}
use liqvera.Evaluate.Reading.{
  IsRead, read_evidence-IsRead, failures, first_failure, read_evidence-first,
}
use liqvera.Evaluate.Sealing.{IsSealed, IsUnsealed, Reads, well, badly, read_economics-Reads}
use liqvera.Verdict.Reasons.{none_left, next, stage_a_decision-accepts}
use liqvera.Verdict.Gates.{document, Judged, judge-Judged}
use liqvera.Evaluate.{
  Error, escaped, map_error, as_judged, invalid, or_invalid, Evidence, read_evidence, loads_payload,
  or_rebuilt, or_bound, rebuild_and_bind, read_economics, evaluate_reader, evaluate_frozen_package,
}

-- The document for a refused package.
abbrev pub invalid_document : FrozenPackageErrorCode → Option Str → StageADecision
invalid_document code run = document invalid_dataset (map_error code ∷ []) run

-- Every code has a reason of INVALID_DATASET.
map_error-class : (code : FrozenPackageErrorCode) → reason_class (map_error code) ≡ invalid_dataset
unfolding map_error reason_class
map_error-class Package.invalid_argument = refl
map_error-class Package.manifest_missing = refl
map_error-class Package.manifest_non_canonical = refl
map_error-class Package.manifest_hash_invalid = refl
map_error-class Package.manifest_hash_mismatch = refl
map_error-class Package.unsupported_version = refl
map_error-class Package.member_set_mismatch = refl
map_error-class Package.member_hash_mismatch = refl
map_error-class Package.member_hash_invalid = refl
map_error-class Package.symlink_forbidden = refl
map_error-class Package.path_invalid = refl
map_error-class Package.record_invalid = refl
map_error-class Package.run_mismatch = refl

pub invalid-eq :
    (code : FrozenPackageErrorCode) (run : Option Str)
    → invalid code run ≡ ok (invalid_document code run)
unfolding invalid
invalid-eq code run = rw (stage_a_decision-accepts run (next (map_error-class code) none_left)) refl

-- The three ways through one `try`.
or_invalid-cases :
    {A : Type 0} (P : Result Error StageADecision → Type 0) (run : Option Str)
    (r : Result Package.Error A) (then : A → Result Error StageADecision)
    → ((code : FrozenPackageErrorCode) → r ≡ err (frozen code) → P (ok (invalid_document code run)))
    → ((e : Raised) → r ≡ err (raised e) → P (err (escaped e)))
    → ((a : A) → r ≡ ok a → P (then a))
    → P (or_invalid run r then)
unfolding or_invalid
or_invalid-cases P run (ok a) then refused escapes goes_on = goes_on a refl
or_invalid-cases P run (err (frozen code)) then refused escapes goes_on =
    subst P (sym (invalid-eq code run)) (refused code refl)
or_invalid-cases P run (err (raised e)) then refused escapes goes_on = escapes e refl

-- What is known of a package by the time that its books are rebuilt: the reader passed every test,
-- and the evidence is what its methods returned.
pub record Opened (p : Platform) (root : Root) (reader : Reader) (evidence : Evidence)
    : Type 0 where
  pub opened : open_package p root ≡ ok reader
  pub intact : IsIntact p reader
  pub read : IsRead p reader evidence
  pub snapshot : IsSnapshotOf p reader evidence.snapshot

-- The books are those of the envelopes that were read.
pub record IsRebuilt (p : Platform) (evidence : Evidence) (books : List ReconstructedBook)
    : Type 0 where
  pub rebuilt :
      reconstruct_books p.unicode (loads_payload p) evidence.envelopes evidence.snapshot.mappings
      ≡ ok books
  pub admitted : All (λ b. IsBook b.snapshot) books
  pub numbered : Numbered 0 books
  pub increasing : Increasing books

-- Each is bound to a mapping of the snapshot that was read.
pub record IsBound (p : Platform) (evidence : Evidence) (books bound : List ReconstructedBook)
    : Type 0 where
  pub all_bound : bind_reconstructed_books p.unicode books evidence.snapshot.mappings ≡ ok bound
  pub each : Bound p.unicode evidence.snapshot.mappings books bound

-- What the third handler makes of an error of the books
pub data OfBooks : Book.Error → Package.Error → Type 0 where
  of_reconstruction : OfBooks Book.reconstruction_error (frozen record_invalid)
  of_value : OfBooks Book.value_error (raised value_error)
  of_loading : {e : Raised} → OfBooks (Book.escaped e) (raised e)

-- and of their binding
pub data OfBinding : Identity.Error → Package.Error → Type 0 where
  of_binding : OfBinding identity_bind_error (frozen record_invalid)
  of_index : OfBinding Identity.value_error (raised value_error)
  of_book : {b : Book.Error} {e : Package.Error} → OfBooks b e → OfBinding (book_error b) e

-- Where the evaluation stops before the verdict: with which run, and with which error
pub data Stops (p : Platform) (root : Root) : Option Str → Package.Error → Type 0 where
  unopened : {e : Package.Error} → open_package p root ≡ err e → Stops p root none e
  unread :
      {e : Package.Error} (reader : Reader)
      → open_package p root ≡ ok reader
      → first_failure (failures p reader) ≡ some e
      → Stops p root (some reader.run_id) e
  unbuilt :
      {e : Package.Error} {reader : Reader} {evidence : Evidence} (b : Book.Error)
      → Opened p root reader evidence
      → reconstruct_books p.unicode (loads_payload p) evidence.envelopes evidence.snapshot.mappings
        ≡ err b
      → OfBooks b e
      → Stops p root (some reader.run_id) e
  unbound :
      {e : Package.Error} {reader : Reader} {evidence : Evidence} {books : List ReconstructedBook}
      (b : Identity.Error)
      → Opened p root reader evidence
      → IsRebuilt p evidence books
      → bind_reconstructed_books p.unicode books evidence.snapshot.mappings ≡ err b
      → OfBinding b e
      → Stops p root (some reader.run_id) e
  unsealed :
      {e : Package.Error} {reader : Reader} {evidence : Evidence}
      {books bound : List ReconstructedBook}
      → Opened p root reader evidence
      → IsRebuilt p evidence books
      → IsBound p evidence books bound
      → IsUnsealed p reader e
      → Stops p root (some reader.run_id) e

pub data Outcome (p : Platform) (root : Root) : Result Error StageADecision → Type 0 where
  refused :
      {code : FrozenPackageErrorCode} {run : Option Str}
      → Stops p root run (frozen code)
      → Outcome p root (ok (invalid_document code run))
  escapes :
      {run : Option Str} {e : Raised}
      → Stops p root run (raised e)
      → Outcome p root (err (escaped e))
  weighed :
      {x : _} (reader : Reader) (evidence : Evidence) (economics : Option SealedStageAEconomics)
      {books bound : List ReconstructedBook}
      → Opened p root reader evidence
      → IsRebuilt p evidence books
      → IsBound p evidence books bound
      → IsSealed p reader economics
      → Judged (some reader.run_id) evidence.manifest evidence.terminal evidence.minutes economics x
      → Outcome p root (as_judged x)

or_rebuilt-cases :
    {A : Type 0} (P : Result Package.Error A → Type 0) (r : Result Book.Error A)
    → ((a : A) → r ≡ ok a → P (ok a))
    → ((b : Book.Error) (e : Package.Error) → r ≡ err b → OfBooks b e → P (err e))
    → P (or_rebuilt r)
or_rebuilt-cases P (ok a) good bad = good a refl
or_rebuilt-cases P (err Book.reconstruction_error) good bad = bad _ _ refl of_reconstruction
or_rebuilt-cases P (err Book.value_error) good bad = bad _ _ refl of_value
or_rebuilt-cases P (err (Book.escaped e)) good bad = bad _ _ refl of_loading

or_bound-cases :
    {A : Type 0} (P : Result Package.Error A → Type 0) (r : Result Identity.Error A)
    → ((a : A) → r ≡ ok a → P (ok a))
    → ((b : Identity.Error) (e : Package.Error) → r ≡ err b → OfBinding b e → P (err e))
    → P (or_bound r)
or_bound-cases P (ok a) good bad = good a refl
or_bound-cases P (err identity_bind_error) good bad = bad _ _ refl of_binding
or_bound-cases P (err Identity.value_error) good bad = bad _ _ refl of_index
or_bound-cases P (err (book_error Book.reconstruction_error)) good bad =
    bad _ _ refl (of_book of_reconstruction)
or_bound-cases P (err (book_error Book.value_error)) good bad = bad _ _ refl (of_book of_value)
or_bound-cases P (err (book_error (Book.escaped e))) good bad = bad _ _ refl (of_book of_loading)

-- The third `try`, with the evidence that was read
data Builds (p : Platform) (root : Root) (reader : Reader) (evidence : Evidence)
    : Result Package.Error (List ReconstructedBook) → Type 0 where
  builds :
      {books bound : List ReconstructedBook}
      → IsRebuilt p evidence books
      → IsBound p evidence books bound
      → Builds p root reader evidence (ok bound)
  stops :
      {e : Package.Error}
      → Stops p root (some reader.run_id) e
      → Builds p root reader evidence (err e)

rebuild_and_bind-Builds :
    (p : Platform) (root : Root) (reader : Reader) (evidence : Evidence)
    → Opened p root reader evidence
    → Builds p root reader evidence
        (rebuild_and_bind p evidence.envelopes evidence.snapshot.mappings)
unfolding rebuild_and_bind
rebuild_and_bind-Builds p root reader evidence opened =
    let mappings = evidence.snapshot.mappings in
    or_rebuilt-cases
      (λ r.
        Builds p root reader evidence
          (r >>= λ books. or_bound (bind_reconstructed_books p.unicode books mappings)))
      (reconstruct_books p.unicode (loads_payload p) evidence.envelopes mappings)
      (λ books made.
        (let (admitted, numbered, increasing) =
            reconstruct_books-Numbered p.unicode (loads_payload p) evidence.envelopes mappings
              made in
          let rebuilt : IsRebuilt p evidence books = record {
            rebuilt = made;
            admitted = admitted;
            numbered = numbered;
            increasing = increasing;
          } in
          or_bound-cases (Builds p root reader evidence)
            (bind_reconstructed_books p.unicode books mappings)
            (λ bound h. builds rebuilt (record {
              all_bound = h;
              each = bind_reconstructed_books-Bound p.unicode books mappings h;
            }))
            (λ b e h k. stops (unbound b opened rebuilt h k))))
      (λ b e h k. stops (unbuilt b opened h k))

-- One `try`, over what is known of its body
or_invalid-Outcome :
    {A : Type 0} (p : Platform) (root : Root) (run : Option Str) (r : Result Package.Error A)
    (then : A → Result Error StageADecision)
    → ((e : Package.Error) → r ≡ err e → Stops p root run e)
    → ((a : A) → r ≡ ok a → Outcome p root (then a))
    → Outcome p root (or_invalid run r then)
or_invalid-Outcome p root run r then stopped goes_on =
    or_invalid-cases (Outcome p root) run r then (λ code h. refused (stopped (frozen code) h))
      (λ e h. escapes (stopped (raised e) h)) goes_on

evaluate_reader-Outcome :
    (p : Platform) (root : Root) (reader : Reader)
    → open_package p root ≡ ok reader
    → Outcome p root (evaluate_reader p reader)
unfolding evaluate_reader
evaluate_reader-Outcome p root reader opened =
    let run = some reader.run_id in
    or_invalid-Outcome p root run (read_evidence p reader) _
      (λ e h. unread reader opened (read_evidence-first p reader h))
      (λ evidence h.
        (let read = read_evidence-IsRead p reader h in
          let known : Opened p root reader evidence = record {
            opened = opened;
            intact = open_package-IsIntact p root opened;
            read = read;
            snapshot = read_mapping_snapshot-IsSnapshotOf p reader reader.run_id read.snapshot;
          } in
          let made = rebuild_and_bind-Builds p root reader evidence known in
          or_invalid-Outcome p root run
            (rebuild_and_bind p evidence.envelopes evidence.snapshot.mappings) _
            (λ e k. Builds-stops made k)
            (λ bound k.
              (let (books, rebuilt, each) = Builds-ok made k in
                let seal = read_economics-Reads p reader in
                or_invalid-Outcome p root run (read_economics p reader) _
                  (λ e m. unsealed known rebuilt each (Reads-err seal m))
                  (λ economics m.
                    weighed reader evidence economics known rebuilt each (Reads-ok seal m) (
                      judge-Judged run evidence.manifest evidence.terminal evidence.minutes
                        economics))))))
  where
    Builds-stops :
        {evidence : Evidence} {r : Result Package.Error (List ReconstructedBook)}
        {e : Package.Error}
        → Builds p root reader evidence r
        → r ≡ err e
        → Stops p root (some reader.run_id) e
    Builds-stops (builds rebuilt each) h = cc
    Builds-stops {e = y} (stops {e = x} stopped) h =
        let same : x ≡ y = cc in subst (Stops p root (some reader.run_id)) same stopped

    Builds-ok :
        {evidence : Evidence} {r : Result Package.Error (List ReconstructedBook)}
        {bound : List ReconstructedBook}
        → Builds p root reader evidence r
        → r ≡ ok bound
        → (books : List ReconstructedBook) × IsRebuilt p evidence books
          × IsBound p evidence books bound
    Builds-ok {evidence = evidence} (builds {books = books} rebuilt each) h =
        (books, rebuilt, subst (IsBound p evidence books) (ok-injective h) each)
    Builds-ok (stops stopped) h = cc

    Reads-err :
        {r : Result Package.Error (Option SealedStageAEconomics)} {e : Package.Error}
        → Reads p reader r
        → r ≡ err e
        → IsUnsealed p reader e
    Reads-err (well k) h = cc
    Reads-err {e = y} (badly {e = x} k) h =
        let same : x ≡ y = cc in subst (IsUnsealed p reader) same k

    Reads-ok :
        {r : Result Package.Error (Option SealedStageAEconomics)} {o : Option SealedStageAEconomics}
        → Reads p reader r
        → r ≡ ok o
        → IsSealed p reader o
    Reads-ok (well k) h = subst (IsSealed p reader) (ok-injective h) k
    Reads-ok (badly k) h = cc

-- For every package evaluate_frozen_package either returns INVALID_DATASET with the one reason
-- that _map_error gives the code, or raises a built-in exception, or returns the verdict on what
-- was read, rebuilt, bound and decoded. In the first two cases it stopped at the opening, at the
-- first of the seven reads that failed, at the rebuilding, at the binding or at the economics,
-- each after the steps before it succeeded: the code or the exception is that of this failure as
-- its handler translates it, and the run is absent only where the package was not opened. It
-- raises no error of StageADecision and never misses the economics.
pub evaluate_frozen_package-Outcome :
    (p : Platform) (root : Root) → Outcome p root (evaluate_frozen_package p root)
unfolding evaluate_frozen_package
evaluate_frozen_package-Outcome p root =
    or_invalid-Outcome p root none (open_package p root) (evaluate_reader p) (λ e h. unopened h)
      (λ reader opened. evaluate_reader-Outcome p root reader opened)
