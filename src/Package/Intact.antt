-- ===== src/Package/Intact.antt =====
-- What the tests of the reader's constructor establish.
use liqvera.Prelude.{
  ℕ, ◌≡◌, refl, sym, ap, subst, ◌⊎◌, inl, inr, true, false, not, List, [], ◌∷◌, Option, none, some,
  Result, ok, raise_if, >>=-eq-ok, ok-injective, passed, not_raised, All, all, &&_iff, length, ◌==◌,
}
use liqvera.Python.{Str, codes, str_eq, str_eq_iff}
use liqvera.Json.{Members, as_text, as_object, as_array, get, member_of, is_text}
use liqvera.Package.{
  Platform, Error, frozen, member_set_mismatch, manifest_hash_mismatch, manifest_hash_invalid,
  unsupported_version, symlink_forbidden, manifest_non_canonical, member_hash_mismatch, Entry,
  Target, missing, directory, special, regular, Tree, Root, read_bytes, canonical_json_bytes,
  decode_canonical_json, scan_regular_files, scan_target, package_schema,
}
use liqvera.Package.Reader.{
  Reader, Declared, paths, unsigned, manifest_name, required_members, open_package, require,
  require_items, require_root, manifest_bytes, require_manifest, require_members, check_members,
  declare_all, same_set, is_symlink, run_id_of,
}

-- The member's bytes have the digest.
pub record HasDigest (p : Platform) (tree : Tree) (member : Str × Str) : Type 0 where
  pub bytes : List ℕ
  pub readable : read_bytes member.0 tree ≡ ok bytes
  pub hashed : p.sha256 bytes ≡ member.1

-- A directory, or a regular file of the set; never a link.
pub record IsListed (files : List Str) (entry : Str × Entry) : Type 0 where
  pub plain : entry.1.is_link ≡ false
  pub known :
      (entry.1.target ≡ directory)
      ⊎ ((bytes : List ℕ) × (entry.1.target ≡ regular bytes) × (member_of entry.0 files ≡ true))

-- The manifest without its hash has the hash that the manifest states.
pub record IsSigned (p : Platform) (document : Members) : Type 0 where
  pub hash : Str
  pub stated : as_text (get (codes "manifest_sha256") document) ≡ some hash
  pub own_hash : p.sha256 (canonical_json_bytes p (unsigned document)) ≡ hash

pub record IsIntact (p : Platform) (r : Reader) : Type 0 where
  pub signed : IsSigned p r.document
  pub required : all (λ path. member_of path (paths r.declared)) required_members ≡ true
  pub members : All (HasDigest p r.tree) r.declared
  pub closed : All (IsListed (manifest_name ∷ paths r.declared)) r.tree

-- One round of the scan.
scan_target-lem :
    (files : List Str) (path : Str) (rest : Result Error (List Str)) (t : Target) {found : List Str}
    → scan_target path rest t ≡ ok found
    → all (λ x. member_of x files) found ≡ true
    → ((t ≡ directory) ⊎ ((bytes : List ℕ) × (t ≡ regular bytes) × (member_of path files ≡ true)))
      × ((later : List Str) × (rest ≡ ok later) × (all (λ x. member_of x files) later ≡ true))
unfolding scan_target
scan_target-lem files path rest directory {found} h covered = (inl refl, (found, h, covered))
scan_target-lem files path rest (regular bytes) {found} h covered =
    let (later, scanned, made) = >>=-eq-ok rest (λ paths. ok (path ∷ paths)) h in
    let (here, there) =
      (&&_iff (member_of path files) (all (λ x. member_of x files) later)).0
        (subst (λ xs. all (λ x. member_of x files) xs ≡ true) (sym (ok-injective made)) covered) in
    (inr (bytes, refl, here), (later, scanned, there))
scan_target-lem files path rest missing h covered = cc
scan_target-lem files path rest special h covered = cc

pub scan-IsListed :
    (files : List Str) (tree : Tree) {found : List Str}
    → scan_regular_files tree ≡ ok found
    → all (λ x. member_of x files) found ≡ true
    → All (IsListed files) tree
unfolding scan_regular_files
scan-IsListed files [] h covered = tt
scan-IsListed files ((path, e) ∷ tree) {found} h covered =
    let (u, linked, scanned) =
      >>=-eq-ok (raise_if e.is_link (frozen symlink_forbidden)) _ {last = found} h in
    let (known, (later, rest, still)) =
      scan_target-lem files path (scan_regular_files tree) e.target scanned covered in
    (
      record { plain = not_raised e.is_link (frozen symlink_forbidden) linked; known = known },
      scan-IsListed files tree rest still,
    )

pub check_members-HasDigest :
    (p : Platform) (tree : Tree) (declared : Declared)
    → check_members p tree declared ≡ ok tt
    → All (HasDigest p tree) declared
unfolding check_members
check_members-HasDigest p tree [] h = tt
check_members-HasDigest p tree ((path, digest) ∷ declared) h =
    let (u, links, h0) =
      >>=-eq-ok (raise_if (is_symlink path tree) (frozen symlink_forbidden)) _ {last = tt} h in
    let (bytes, readable, h1) = >>=-eq-ok (read_bytes path tree) _ {last = tt} h0 in
    let (v, same, rest) =
      >>=-eq-ok (raise_if (not (str_eq (p.sha256 bytes) digest)) (frozen member_hash_mismatch)) _
        {last = tt} h1 in
    (
      record {
        bytes = bytes;
        readable = readable;
        hashed =
            (str_eq_iff (p.sha256 bytes) digest).0
              (passed (str_eq (p.sha256 bytes) digest) (frozen member_hash_mismatch) same);
      },
      check_members-HasDigest p tree declared rest,
    )

require-some : {A : Type 0} (e : _) (o : Option A) {a : A} → require e o ≡ ok a → o ≡ some a
require-some e none h = cc
require-some e (some x) h = ap some (ok-injective h)

require_manifest-IsSigned :
    (p : Platform) (document : Members) → require_manifest p document ≡ ok tt → IsSigned p document
unfolding require_manifest
require_manifest-IsSigned p document h =
    let (u, schema, h0) =
      >>=-eq-ok
        (raise_if (not (is_text package_schema (get (codes "schema") document)))
          (frozen unsupported_version))
        _ {last = tt} h in
    let (hash, stated, h1) =
      >>=-eq-ok (require manifest_hash_invalid (as_text (get (codes "manifest_sha256") document))) _
        {last = tt} h0 in
    let (v, long, h2) =
      >>=-eq-ok (raise_if (not (length hash == 64)) (frozen manifest_hash_invalid)) _ {last = tt}
        h1 in
    record {
      hash = hash;
      stated =
          require-some manifest_hash_invalid (as_text (get (codes "manifest_sha256") document))
            stated;
      own_hash = (str_eq_iff (p.sha256 (canonical_json_bytes p (unsigned document))) hash).0 (
          passed (str_eq (p.sha256 (canonical_json_bytes p (unsigned document))) hash)
            (frozen manifest_hash_mismatch) h2);
    }

require_members-lem :
    (p : Platform) (tree : Tree) (declared : Declared)
    → require_members p tree declared ≡ ok tt
    → (all (λ path. member_of path (paths declared)) required_members ≡ true)
      × All (HasDigest p tree) declared
      × All (IsListed (manifest_name ∷ paths declared)) tree
unfolding require_members same_set
require_members-lem p tree declared h =
    let needed = all (λ path. member_of path (paths declared)) required_members in
    let (u, required, h0) =
      >>=-eq-ok (raise_if (not needed) (frozen member_set_mismatch)) _ {last = tt} h in
    let (found, scanned, h1) = >>=-eq-ok (scan_regular_files tree) _ {last = tt} h0 in
    let (v, same, h2) =
      >>=-eq-ok
        (raise_if (not (same_set found (manifest_name ∷ paths declared)))
          (frozen member_set_mismatch))
        _ {last = tt} h1 in
    let equal =
      passed (same_set found (manifest_name ∷ paths declared)) (frozen member_set_mismatch) same in
    let covered =
      ((&&_iff (all (λ x. member_of x (manifest_name ∷ paths declared)) found)
          (all (λ x. member_of x found) (manifest_name ∷ paths declared))).0
        equal).0 in
    (
      passed needed (frozen member_set_mismatch) required,
      check_members-HasDigest p tree declared h2,
      scan-IsListed (manifest_name ∷ paths declared) tree scanned covered,
    )

-- Where the reader accepts a package, the manifest without its hash has the hash that it states,
-- every declared member can be read and has its digest, every required member is declared, and
-- below the root there are only directories and regular files that are the manifest or declared,
-- and no links.
pub open_package-IsIntact :
    (p : Platform) (root : Root) {r : Reader} → open_package p root ≡ ok r → IsIntact p r
unfolding open_package
open_package-IsIntact p root {r} h =
    let (u, e0, h0) = >>=-eq-ok (require_root root) _ {last = r} h in
    let (bytes, e1, h1) = >>=-eq-ok (manifest_bytes root.tree) _ {last = r} h0 in
    let (loaded, e2, h2) = >>=-eq-ok (decode_canonical_json p bytes) _ {last = r} h1 in
    let (document, e3, h3) =
      >>=-eq-ok (require manifest_non_canonical (as_object loaded)) _ {last = r} h2 in
    let (v, signed, h4) = >>=-eq-ok (require_manifest p document) _ {last = r} h3 in
    let (items, e5, h5) =
      >>=-eq-ok (require_items (as_array (get (codes "members") document))) _ {last = r} h4 in
    let (declared, e6, h6) = >>=-eq-ok (declare_all p [] items) _ {last = r} h5 in
    let (w, checked, h7) = >>=-eq-ok (require_members p root.tree declared) _ {last = r} h6 in
    let (run, e8, made) = >>=-eq-ok (run_id_of p document) _ {last = r} h7 in
    let (required, members, closed) = require_members-lem p root.tree declared checked in
    subst (IsIntact p) (ok-injective made) (record {
      signed = require_manifest-IsSigned p document signed;
      required = required;
      members = members;
      closed = closed;
    })
