-- ===== src/Package.antt =====
-- The codec and the error codes of frozen packages, packages/readonly-analyzer/src/
-- liqvera_readonly_analyzer/frozen_package/codec.py and types.py. JSON, SHA-256, UUIDs, text codecs
-- and POSIX paths are the record `Platform`; a package on the disk is a `Root`.
pub mod Reader
pub mod Mappings
pub mod Records
pub mod Intact
pub mod Reviewed
use liqvera.Prelude.{
  ◌≡◌, ap, ok-injective, ℕ, Bool, true, false, not, ◌&&◌, ◌||◌, List, [], ◌∷◌, ◌++◌, Option, none,
  some, Result, ok, err, ◌>>=◌, ◌>>◌, raise_if, ◌==◌, if◌then◌else◌, all,
}
use liqvera.Python.{Str, Raised, decode_error, os_error, Unicode, codes, is_empty, any, str_eq}
use liqvera.Json.{Json, member_of}
use liqvera.Json.Builtins.{Builtins}

abbrev pub package_schema : Str
package_schema = codes "liqvera-readonly-frozen-package/v1"

pub data FrozenPackageErrorCode : Type 0 where
  invalid_argument manifest_missing manifest_non_canonical manifest_hash_invalid
        manifest_hash_mismatch unsupported_version member_set_mismatch member_hash_mismatch
        member_hash_invalid symlink_forbidden path_invalid record_invalid run_mismatch :
      FrozenPackageErrorCode

-- FrozenPackageError, which is a ValueError, and whatever else is raised.
pub data Error : Type 0 where
  frozen : FrozenPackageErrorCode → Error
  raised : Raised → Error

-- `PurePosixPath(path)`
pub record PosixPath : Type 0 where
  pub is_absolute : Bool
  pub parts : List Str
  pub as_posix : Str

-- What the package code takes from Python's library. Bytes are numbers; `dumps` is the compact form
-- with sorted keys, as ASCII bytes; `uuid` returns the canonical text, where the text is a UUID.
pub record Platform : Type 0 where
  pub unicode : Unicode
  pub builtins : Builtins
  pub decode_ascii : List ℕ → Option Str
  pub decode_utf8 : List ℕ → Option Str
  pub universal_newlines : Str → Str
  pub split_lines : Str → List Str
  pub loads : Str → Result Raised Json
  pub dumps : Json → List ℕ
  pub sha256 : List ℕ → Str
  pub posix_path : Str → PosixPath
  pub uuid : Str → Option Str
  pub from_hex : Str → Option (List ℕ)

-- What a path leads to, links followed.
pub data Target : Type 0 where
  missing directory special : Target
  regular : List ℕ → Target

pub record Entry : Type 0 where
  pub is_link : Bool
  pub target : Target

-- The paths below a root, relative to it, in the order of `sorted(root.rglob("*"))`. Nothing else
-- writes to the package while it is read.
abbrev pub Tree : Type 0
Tree = List (Str × Entry)

pub record Root : Type 0 where
  pub itself : Entry
  pub tree : Tree

unfoldable pub entry_at : Str → Tree → Option Entry
entry_at path [] = none
entry_at path ((p, e) ∷ tree) =
    let later = entry_at path tree in if str_eq p path then some e else later

-- `(root / path).read_bytes()`
unfoldable pub read_bytes : Str → Tree → Result Error (List ℕ)
read_bytes path tree = elim (entry_at path tree) [
  | none ↦ err (raised os_error)
  | some e ↦ elim e.target [ regular bytes ↦ ok bytes | _ ↦ err (raised os_error) ]
]

-- `canonical_json_bytes`
abbrev pub canonical_json_bytes : Platform → Json → List ℕ
canonical_json_bytes p document = p.dumps document ++ b'\n' ∷ []

unfoldable pub ends_with : ℕ → List ℕ → Bool
ends_with c [] = false
ends_with c (x ∷ []) = x == c
ends_with c (x ∷ y ∷ xs) = ends_with c (y ∷ xs)

-- `except (UnicodeDecodeError, json.JSONDecodeError)` around `json.loads`
abbrev pub or_frozen {ℓ} : {A : Type ℓ} → FrozenPackageErrorCode → Result Raised A → Result Error A
or_frozen code (ok a) = ok a
or_frozen code (err decode_error) = err (frozen code)
or_frozen code (err e) = err (raised e)

-- Nothing is caught.
abbrev pub uncaught {ℓ} : {A : Type ℓ} → Result Raised A → Result Error A
uncaught (ok a) = ok a
uncaught (err e) = err (raised e)

-- A text codec that raises where it returns `none`, with `json.loads` behind it.
abbrev pub loads_decoded : Platform → Option Str → Result Raised Json
loads_decoded p none = err decode_error
loads_decoded p (some s) = p.loads s

-- `decode_canonical_json`
unfoldable pub decode_canonical_json : Platform → List ℕ → Result Error Json
decode_canonical_json p payload =
    if ends_with b'\n' payload
    then or_frozen manifest_non_canonical (loads_decoded p (p.decode_ascii payload))
    else err (frozen manifest_non_canonical)

-- `require_relative_member`
unfoldable pub require_relative_member : Platform → Str → Result Error (Unit {0})
require_relative_member p path =
    let relative = p.posix_path path in
    raise_if
      (is_empty path
        || relative.is_absolute
        || member_of (codes "..") relative.parts
        || not (str_eq relative.as_posix path)
        || ends_with b'/' path)
      (frozen path_invalid)

-- What one path adds to those that the rest of the loop finds.
unfoldable pub scan_target : Str → Result Error (List Str) → Target → Result Error (List Str)
scan_target path rest directory = rest
scan_target path rest (regular bytes) = do found ← rest; ok (path ∷ found)
scan_target path rest missing = err (frozen path_invalid)
scan_target path rest special = err (frozen path_invalid)

-- `scan_regular_files`: the set, with each path once
unfoldable pub scan_regular_files : Tree → Result Error (List Str)
scan_regular_files [] = ok []
scan_regular_files ((path, e) ∷ tree) = do
  raise_if e.is_link (frozen symlink_forbidden)
  scan_target path (scan_regular_files tree) e.target

pub uncaught-ok {ℓ} : {A : Type ℓ} (r : Result Raised A) {a : A} → uncaught r ≡ ok a → r ≡ ok a
uncaught-ok (ok x) h = let k = ok-injective h in ap (λ y. ok y) k
uncaught-ok (err e) h = cc
