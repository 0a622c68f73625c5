-- ===== src/Writer.antt =====
-- `write_frozen_package` of packages/public-capture/src/liqvera_public_capture/package.py: an Action on
-- the directory, which stays as far as it came where the call raises.
pub mod Site
pub mod Written
pub mod Sorted
pub mod Accepted
pub mod Envelopes
use liqvera.Prelude.{
  ℕ, suc, ◌+◌, ◌-◌, ◌*◌, ◌/◌, ◌%◌, Bool, true, false, not, List, [], ◌∷◌, ◌++◌, Option, none, some,
  Result, ok, err, raise_if, if◌then◌else◌, length,
}
use liqvera.Prelude.Int.{ℤ, pos, negsuc}
use liqvera.Prelude.Action.{Action, ◌>>=◌, ◌>>◌, return, call, self, modify}
use liqvera.Python.{Str, value_error, os_error, codes, is_empty}
use liqvera.Json.{
  Json, integer, text, array, object, Items, no_items, item, Members, no_members, member,
}
use liqvera.Package.{
  Platform, Target, missing, directory, Entry, Tree, Root, package_schema, canonical_json_bytes,
}
use liqvera.Package.Reader.{manifest_name}
use Site.{
  Failure, raised, index_error, folder, make_directory, write_bytes, ancestors, clear_package_root,
}

-- What the writer takes from Python's library: the reader's part, `json.dumps(...)` with its default
-- arguments, as its ASCII bytes, and `bytes.hex`.
pub record Serializer : Type 0 where
  pub platform : Platform
  pub default_dumps : Json → List ℕ
  pub hex : List ℕ → Str

-- The arguments of `write_frozen_package`. A UUID is its canonical text; `mappings` is the list of
-- dicts.
pub record Capture : Type 0 where
  pub run_id : Str
  pub started_at_ms : ℤ
  pub terminated_at_ms : ℤ
  pub venues : List Str
  pub envelopes : List (Str × List ℕ)
  pub mappings : Items

abbrev pub int : ℕ → Json
int n = integer (pos n)

-- `started_at_ms - (started_at_ms % 60_000)`, with the remainder of Python
unfoldable pub minute_of : ℤ → ℤ
minute_of (pos n) = pos (n - n % 60_000)
minute_of (negsuc n) = negsuc (n / 60_000 * 60_000 + 59_999)

abbrev pub envelope_document : Serializer → ℤ → ℕ → Str × List ℕ → Members
envelope_document w started index envelope = member (codes "envelope_index") (int index) (
    member (codes "observed_at_ms") (integer started) (
      member (codes "venue") (text envelope.0)
        (member (codes "payload_hex") (text (w.hex envelope.1)) no_members)))

-- `json.dumps(document) + "\n"`
abbrev pub line : Serializer → Members → List ℕ
line w document = w.default_dumps (object document) ++ b'\n' ∷ []

-- `envelope_ndjson`, from an index on
unfoldable pub envelope_ndjson : Serializer → ℤ → ℕ → List (Str × List ℕ) → List ℕ
envelope_ndjson w started index [] = []
envelope_ndjson w started index (envelope ∷ envelopes) =
    line w (envelope_document w started index envelope)
    ++ envelope_ndjson w started (suc index) envelopes

abbrev pub control_document : Serializer → ℤ → List ℕ → Members
control_document w started batch = member (codes "recorded_at_ms") (integer started) (
    member (codes "kind") (text (codes "epoch"))
      (member (codes "payload_sha256") (text (w.platform.sha256 batch)) no_members))

abbrev pub minute_document : ℤ → Str → Members
minute_document started venue = member (codes "minute_start_ms") (integer (minute_of started)) (
    member (codes "venue") (text venue)
      (member (codes "accepted") (int 1) (member (codes "rejected") (int 0) no_members)))

abbrev pub terminal_document : ℤ → Members
terminal_document terminated =
    member (codes "terminated_at_ms") (integer terminated)
      (member (codes "status") (text (codes "sealed")) no_members)

abbrev pub Files : Type 0
Files = List (Str × List ℕ)

-- `members`
abbrev pub members_of : Serializer → Capture → Str → List ℕ → Files
members_of w c venue batch =
    (codes "control_evidence/records.ndjson", line w (control_document w c.started_at_ms batch))
    ∷ (codes "raw_batches/0.bin", batch)
    ∷ (codes "raw_envelopes/records.ndjson", envelope_ndjson w c.started_at_ms 0 c.envelopes)
    ∷ (codes "quality_minutes/records.ndjson", line w (minute_document c.started_at_ms venue))
    ∷ (
      codes "mapping_snapshot.json",
      line w (member (codes "mappings") (array c.mappings) no_members),
    )
    ∷ (codes "terminal.json", line w (terminal_document c.terminated_at_ms))
    ∷ []

abbrev pub declared_member : Platform → Str → List ℕ → Json
declared_member p path payload = object (
    member (codes "path") (text path) (
      member (codes "sha256") (text (p.sha256 payload))
        (member (codes "length") (int (length payload)) no_members)))

-- `declared`
unfoldable pub declared_of : Platform → Files → Items
declared_of p [] = no_items
declared_of p ((path, payload) ∷ files) =
    item (declared_member p path payload) (declared_of p files)

unfoldable pub texts : List Str → Items
texts [] = no_items
texts (s ∷ rest) = item (text s) (texts rest)

-- `unsigned`, with what is set after
abbrev pub manifest_with : Platform → Capture → Files → Members → Members
manifest_with p c files rest = member (codes "schema") (text package_schema) (
    member (codes "capture_run_id") (text c.run_id) (
      member (codes "started_at_ms") (integer c.started_at_ms) (
        member (codes "venue_set") (array (texts c.venues))
          (member (codes "members") (array (declared_of p files)) rest))))

-- The manifest with its hash
abbrev pub signed : Platform → Capture → Files → Members
signed p c files =
    let hash = p.sha256 (canonical_json_bytes p (object (manifest_with p c files no_members))) in
    manifest_with p c files (member (codes "manifest_sha256") (text hash) no_members)

-- One step on the files below the root
unfoldable pub on_tree : (Tree → Result Failure Tree) → Action Root Failure (Unit {0})
on_tree step = do
  root ← self
  tree ← call (step root.tree)
  modify (λ (r : Root). record { itself = r.itself; tree = tree })

-- `target.parent.mkdir(parents=True, exist_ok=True)`
unfoldable pub make_directories : List Str → Action Root Failure (Unit {0})
make_directories [] = return tt
make_directories (path ∷ paths) = do on_tree (make_directory path); make_directories paths

-- The loop over `members.items()`
unfoldable pub write_members : Files → Action Root Failure (Unit {0})
write_members [] = return tt
write_members ((path, payload) ∷ files) = do
  make_directories (ancestors [] path)
  on_tree (write_bytes path payload)
  write_members files

-- `root.exists() and (root.is_symlink() or not root.is_dir())`
abbrev pub is_no_real_directory : Entry → Bool
is_no_real_directory e = elim e.target [ missing ↦ false | directory ↦ e.is_link | _ ↦ true ]

-- `root.mkdir(parents=True, exist_ok=True)`; a link that leads nowhere is in its way
unfoldable pub make_root : Action Root Failure (Unit {0})
make_root root = elim root.itself.target [
  | missing ↦
      if root.itself.is_link
      then (root, err (raised os_error))
      else (record { itself = folder; tree = [] }, ok tt)
  | directory ↦ (root, ok tt)
  | _ ↦ (root, err (raised os_error))
]

-- `sequence[0]`
abbrev pub first_of {ℓ} : {A : Type ℓ} → List A → Result Failure A
first_of [] = err index_error
first_of (a ∷ rest) = ok a

-- From `members` on, in an empty directory
unfoldable pub fill : Serializer → Capture → List ℕ → Str → Action Root Failure (Unit {0})
fill w c batch venue = do
  let files = members_of w c venue batch
  write_members files
  on_tree (
      write_bytes manifest_name
        (canonical_json_bytes w.platform (object (signed w.platform c files))))

-- `write_frozen_package`; the flag is `root.is_absolute()`
unfoldable pub write_frozen_package : Serializer → Bool → Capture → Action Root Failure (Unit {0})
write_frozen_package w is_absolute c = do
  call (raise_if (not is_absolute) (raised value_error))
  root ← self
  call (raise_if (is_no_real_directory root.itself) (raised value_error))
  call (raise_if (is_empty c.envelopes) (raised value_error))
  make_root
  modify (λ (r : Root). record { itself = r.itself; tree = clear_package_root r.tree })
  batch ← call (first_of c.envelopes)
  venue ← call (first_of c.venues)
  fill w c batch.1 venue
