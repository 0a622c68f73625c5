-- ===== src/Package/Reader.antt =====
-- The constructor of `FrozenPackageEvidenceReader`, packages/readonly-analyzer/src/
-- liqvera_readonly_analyzer/frozen_package/reader.py: every test on a package before it is read.
use liqvera.Prelude.{
  ℕ, Bool, false, not, ◌&&◌, ◌||◌, List, [], ◌∷◌, ◌++◌, map, Option, none, some, Result, ok, err,
  ◌>>=◌, ◌>>◌, raise_if, ◌==◌, if◌then◌else◌, all, length,
}
use liqvera.Python.{Str, codes, str_eq, is_sha256}
use liqvera.Json.{
  Json, Items, no_items, item, Members, object, get, find, remove, as_text, as_array, as_object,
  is_text, member_of,
}
use liqvera.Json.Builtins.{to_text}
use liqvera.Package.{
  Platform, Error, frozen, FrozenPackageErrorCode, manifest_missing, manifest_non_canonical,
  manifest_hash_invalid, manifest_hash_mismatch, unsupported_version, member_set_mismatch,
  member_hash_mismatch, member_hash_invalid, symlink_forbidden, record_invalid, directory, regular,
  Tree, Root, entry_at, read_bytes, package_schema, canonical_json_bytes, decode_canonical_json,
  require_relative_member, scan_regular_files,
}

-- `_REQUIRED_MEMBERS`
abbrev pub required_members : List Str
required_members =
    codes "control_evidence/records.ndjson"
    ∷ codes "raw_batches/0.bin"
    ∷ codes "raw_envelopes/records.ndjson"
    ∷ codes "quality_minutes/records.ndjson"
    ∷ codes "mapping_snapshot.json"
    ∷ codes "terminal.json"
    ∷ []

abbrev pub manifest_name : Str
manifest_name = codes "manifest.json"

-- `declared`, in the order of the manifest
abbrev pub Declared : Type 0
Declared = List (Str × Str)

abbrev pub paths : Declared → List Str
paths declared = map (λ (d : Str × Str). d.0) declared

-- The fields of the reader.
pub record Reader : Type 0 where
  pub tree : Tree
  pub run_id : Str
  pub document : Members
  pub declared : Declared

abbrev pub require {ℓ} : {A : Type ℓ} → FrozenPackageErrorCode → Option A → Result Error A
require code none = err (frozen code)
require code (some a) = ok a

-- The tests on `root`.
unfoldable pub require_root : Root → Result Error (Unit {0})
require_root r = elim r.itself.target [
  | directory ↦ raise_if r.itself.is_link (frozen symlink_forbidden)
  | _ ↦ err (frozen manifest_missing)
]

-- The tests on `manifest_path`, and its bytes
unfoldable pub manifest_bytes : Tree → Result Error (List ℕ)
manifest_bytes tree = elim (entry_at manifest_name tree) [
  | none ↦ err (frozen manifest_missing)
  | some e ↦ elim e.target [
    | regular bytes ↦ if e.is_link then err (frozen symlink_forbidden) else ok bytes
    | _ ↦ err (frozen manifest_missing)
  ]
]

-- The document without its own hash, which the hash is of.
abbrev pub unsigned : Members → Json
unsigned document = object (remove (codes "manifest_sha256") document)

-- The tests on the schema and the hash of the manifest.
unfoldable pub require_manifest : Platform → Members → Result Error (Unit {0})
require_manifest p document = do
  raise_if (not (is_text package_schema (get (codes "schema") document)))
      (frozen unsupported_version)
  hash ← require manifest_hash_invalid (as_text (get (codes "manifest_sha256") document))
  raise_if (not (length hash == 64)) (frozen manifest_hash_invalid)
  raise_if (not (str_eq (p.sha256 (canonical_json_bytes p (unsigned document))) hash))
      (frozen manifest_hash_mismatch)

-- One item of `members`: its path and its digest, against the items before it.
unfoldable pub declare : Platform → Declared → Json → Result Error (Str × Str)
declare p declared raw = do
  fields ← require member_set_mismatch (as_object raw)
  path ← require member_hash_invalid (as_text (get (codes "path") fields))
  digest ← require member_hash_invalid (as_text (get (codes "sha256") fields))
  require_relative_member p path
  raise_if (str_eq path manifest_name || member_of path (paths declared))
      (frozen member_set_mismatch)
  raise_if (not (is_sha256 digest)) (frozen member_hash_invalid)
  ok (path, digest)

-- The loop over `members`
unfoldable pub declare_all : Platform → Declared → Items → Result Error Declared
declare_all p declared no_items = ok declared
declare_all p declared (item raw rest) = do
  next ← declare p declared raw
  declare_all p (declared ++ next ∷ []) rest

-- `members`, which must be a list with items
abbrev pub require_items : Option Items → Result Error Items
require_items none = err (frozen member_set_mismatch)
require_items (some no_items) = err (frozen member_set_mismatch)
require_items (some (item raw rest)) = ok (item raw rest)

-- `a == b` on sets
unfoldable pub same_set : List Str → List Str → Bool
same_set a b = all (λ x. member_of x b) a && all (λ x. member_of x a) b

abbrev pub is_symlink : Str → Tree → Bool
is_symlink path tree = elim (entry_at path tree) [ none ↦ false | some e ↦ e.is_link ]

-- The loop over `declared.items()`
unfoldable pub check_members : Platform → Tree → Declared → Result Error (Unit {0})
check_members p tree [] = ok tt
check_members p tree ((path, digest) ∷ declared) = do
  raise_if (is_symlink path tree) (frozen symlink_forbidden)
  bytes ← read_bytes path tree
  raise_if (not (str_eq (p.sha256 bytes) digest)) (frozen member_hash_mismatch)
  check_members p tree declared

-- `UUID(str(document["capture_run_id"]))`
unfoldable pub run_id_of : Platform → Members → Result Error Str
run_id_of p document = elim (find (codes "capture_run_id") document) [
  | none ↦ err (frozen record_invalid)
  | some raw ↦ require record_invalid (p.uuid (to_text p.builtins raw))
]

-- The tests on the members that the manifest declares.
unfoldable pub require_members : Platform → Tree → Declared → Result Error (Unit {0})
require_members p tree declared = do
  raise_if (not (all (λ path. member_of path (paths declared)) required_members))
      (frozen member_set_mismatch)
  found ← scan_regular_files tree
  raise_if (not (same_set found (manifest_name ∷ paths declared))) (frozen member_set_mismatch)
  check_members p tree declared

-- `__init__`
unfoldable pub open_package : Platform → Root → Result Error Reader
open_package p root = do
  require_root root
  bytes ← manifest_bytes root.tree
  loaded ← decode_canonical_json p bytes
  document ← require manifest_non_canonical (as_object loaded)
  require_manifest p document
  members ← require_items (as_array (get (codes "members") document))
  declared ← declare_all p [] members
  require_members p root.tree declared
  run ← run_id_of p document
  ok (record { tree = root.tree; run_id = run; document = document; declared = declared })
