-- ===== src/Writer/Accepted.antt =====
-- The reader accepts what the writer leaves.
use liqvera.Prelude.{
  append-nil, append_assoc, ℕ, ◌≡◌, refl, sym, ap, ◌∙◌, Bool, true, false, not, ◌&&◌, ◌||◌, List,
  [], ◌∷◌, ◌++◌, map, All, some, Result, ok, raise_if, ◌>>=◌, ◌>>◌, ◌==◌, length, both, arith,
}
use liqvera.Python.{Str, codes, str_eq, str_eq_iff, is_sha256, split_on, is_empty}
use liqvera.Json.{
  Json, text, object, array, Items, Members, no_members, get, member_of, is_text, as_text,
  as_object, as_array,
}
use liqvera.Package.{
  Platform, Error, frozen, Tree, Root, read_bytes, ends_with, canonical_json_bytes, loads_decoded,
  decode_canonical_json, require_relative_member, member_set_mismatch, package_schema,
  unsupported_version, manifest_hash_invalid, manifest_hash_mismatch, record_invalid,
  manifest_non_canonical,
}
use liqvera.Package.Reader.{
  Reader, Declared, paths, manifest_name, required_members, open_package, declare, declare_all,
  check_members, is_symlink, require_manifest, require_members, run_id_of, require_root,
  manifest_bytes, require, require_items, unsigned,
}
use liqvera.Writer.Site.{folder}
use liqvera.Writer.{
  first_of, write_frozen_package, Serializer, Capture, Files, members_of, signed, declared_of,
  declared_member, manifest_with,
}
use liqvera.Writer.Written.{written, IsFree, write-written}
use liqvera.Writer.Sorted.{insert_member, sorted, sorted_items, sorted_members}

-- What the reader is told of SHA-256, of `sort_keys` and of the paths of the six members.
pub record IsPlain (p : Platform) : Type 0 where
  pub hexdigest : (bytes : List ℕ) → is_sha256 (p.sha256 bytes) ≡ true
  pub sort_keys : (document : Json) → p.dumps (sorted document) ≡ p.dumps document
  pub posix :
      All
        (λ path.
          p.posix_path path
          ≡ record { is_absolute = false; parts = split_on b'/' path; as_posix = path })
        required_members

-- `json.loads` of the manifest returns what was written, and the run's text is a UUID's.
pub record IsReadable (p : Platform) (c : Capture) (files : Files) : Type 0 where
  pub loads :
      loads_decoded p (p.decode_ascii (canonical_json_bytes p (object (signed p c files))))
      ≡ ok (sorted (object (signed p c files)))
  pub uuid : p.uuid c.run_id ≡ some c.run_id

abbrev pub digest_of : Platform → Str × List ℕ → Str × Str
digest_of p (path, payload) = (path, p.sha256 payload)

-- The reader of a written package
abbrev pub reader_of : Serializer → Capture → Str → List ℕ → Reader
reader_of w c venue batch = record {
  tree = written w c venue batch;
  run_id = c.run_id;
  document = sorted_members (signed w.platform c (members_of w c venue batch));
  declared = map (digest_of w.platform) (members_of w c venue batch);
}

>>=-ok :
    {A B : Type 0} (r : Result Error A) (next : A → Result Error B) {a : A}
    → r ≡ ok a
    → (r >>= next) ≡ next a
>>=-ok r next h = ap (λ x. x >>= next) h

ends_with-append : (c : ℕ) (xs : List ℕ) → ends_with c (xs ++ c ∷ []) ≡ true
unfolding ends_with
ends_with-append c [] = ground arith
ends_with-append c (x ∷ []) = ends_with-append c []
ends_with-append c (x ∷ y ∷ xs) = ends_with-append c (y ∷ xs)

pub str_eq_refl : (s : Str) → str_eq s s ≡ true
str_eq_refl s = (str_eq_iff s s).1 refl

-- Each member can be read, is no link, and has the declared digest.
check_members-ok :
    (p : Platform) (tree : Tree) (files : Files)
    → All (λ f. (is_symlink f.0 tree ≡ false) × (read_bytes f.0 tree ≡ ok f.1)) files
    → check_members p tree (map (digest_of p) files) ≡ ok tt
unfolding check_members
check_members-ok p tree [] h = refl
check_members-ok p tree ((path, payload) ∷ files) ((plain, readable), h) =
    rw (plain, readable, str_eq_refl (p.sha256 payload)) (check_members-ok p tree files h)

-- What the tests of `declare` ask of each member in turn.
IsFresh : Platform → Declared → Files → Type 0
IsFresh p done [] = Unit
IsFresh p done ((path, payload) ∷ files) =
    (require_relative_member p path ≡ ok tt)
    × ((str_eq path manifest_name || member_of path (paths done)) ≡ false)
    × IsFresh p (done ++ digest_of p (path, payload) ∷ []) files

declare-ok :
    (p : Platform) (done : Declared) (path : Str) (payload : List ℕ)
    → is_sha256 (p.sha256 payload) ≡ true
    → require_relative_member p path ≡ ok tt
    → (str_eq path manifest_name || member_of path (paths done)) ≡ false
    → declare p done (sorted (declared_member p path payload)) ≡ ok (path, p.sha256 payload)
unfolding declare sorted insert_member get str_eq
declare-ok p done path payload hex relative new = rw (relative, new, hex) refl

declare_all-ok :
    (p : Platform) (done : Declared) (files : Files)
    → ((bytes : List ℕ) → is_sha256 (p.sha256 bytes) ≡ true)
    → IsFresh p done files
    → declare_all p done (sorted_items (declared_of p files)) ≡ ok (done ++ map (digest_of p) files)
unfolding declare_all IsFresh sorted_items declared_of
declare_all-ok p done [] hex fresh = ap (λ x. ok x) (sym (append-nil done))
declare_all-ok p done ((path, payload) ∷ files) hex (relative, new, fresh) =
    rw (declare-ok p done path payload (hex payload) relative new) (
      declare_all-ok p (done ++ digest_of p (path, payload) ∷ []) files hex fresh
      ∙ ap (λ x. ok x)
          (append_assoc done (digest_of p (path, payload) ∷ []) (map (digest_of p) files)))

-- A path without "..", as the reader tests it
abbrev is_plain_path : Str → Bool
is_plain_path path =
    not (is_empty path)
    && not (member_of (codes "..") (split_on b'/' path))
    && not (ends_with b'/' path)

require_relative_member-ok :
    (p : Platform) (path : Str)
    → p.posix_path path
      ≡ record { is_absolute = false; parts = split_on b'/' path; as_posix = path }
    → is_plain_path path ≡ true
    → require_relative_member p path ≡ ok tt
unfolding require_relative_member
require_relative_member-ok p path posix plain = rw (posix, str_eq_refl path) (ground arith)

module _ (w : Serializer) (c : Capture) (venue : Str) (batch : List ℕ)
    (plain : IsPlain w.platform) where
  abbrev files : Files
  files = members_of w c venue batch

  abbrev document : Members
  document = sorted_members (signed w.platform c files)

  files-IsFresh : IsFresh w.platform [] files
  unfolding IsFresh split_on str_eq ends_with
  files-IsFresh =
      let (a, (b, (d, (e, (f, (g, u)))))) = plain.posix in
      (
        relative a refl,
        refl,
        (
          relative b refl,
          refl,
          (
            relative d refl,
            refl,
            (relative e refl, refl, (relative f refl, refl, (relative g refl, refl, tt))),
          ),
        ),
      )
    where
      relative :
          {path : Str}
          → w.platform.posix_path path
            ≡ record { is_absolute = false; parts = split_on b'/' path; as_posix = path }
          → is_plain_path path ≡ true
          → require_relative_member w.platform path ≡ ok tt
      relative {path} = require_relative_member-ok w.platform path

  require_members-ok :
      require_members w.platform (written w c venue batch) (map (digest_of w.platform) files)
      ≡ ok tt
  unfolding require_members liqvera.Package.entry_at str_eq read_bytes
      liqvera.Package.scan_regular_files check_members liqvera.Package.scan_target
      liqvera.Package.Reader.same_set
  require_members-ok = check_members-ok w.platform (written w c venue batch) files (
    (refl, refl),
    ((refl, refl), ((refl, refl), ((refl, refl), ((refl, refl), ((refl, refl), tt))))),
  )

  abbrev hash : Str
  hash =
      w.platform.sha256
        (canonical_json_bytes w.platform (object (manifest_with w.platform c files no_members)))

  -- The hash that the manifest states is that of the manifest without it.
  own_hash : w.platform.sha256 (canonical_json_bytes w.platform (unsigned document)) ≡ hash
  unfolding sorted_members sorted liqvera.Json.remove insert_member str_eq
  own_hash =
      ap (λ bytes. w.platform.sha256 (bytes ++ b'\n' ∷ []))
        (plain.sort_keys (object (manifest_with w.platform c files no_members)))

  long : (length hash == 64) ≡ true
  unfolding is_sha256
  long = (both (plain.hexdigest _)).0

  require_manifest-ok : require_manifest w.platform document ≡ ok tt
  unfolding require_manifest sorted_members sorted get insert_member str_eq
      liqvera.Market.Common.str_lt
  require_manifest-ok =
      let stated = w.platform.sha256 (canonical_json_bytes w.platform (unsigned document)) in
      ap
        (λ b.
          raise_if (not b) (frozen manifest_hash_invalid)
          >> raise_if (not (str_eq stated hash)) (frozen manifest_hash_mismatch))
        long
      ∙ ap (λ b. raise_if (not b) (frozen manifest_hash_mismatch))
          ((str_eq_iff stated hash).1 own_hash)

  decode-ok :
      IsReadable w.platform c files
      → decode_canonical_json w.platform
          (canonical_json_bytes w.platform (object (signed w.platform c files)))
        ≡ ok (object document)
  unfolding decode_canonical_json sorted
  decode-ok r =
      rw (ends_with-append b'\n' (w.platform.dumps (object (signed w.platform c files))), r.loads)
        refl

  run_id-ok : IsReadable w.platform c files → run_id_of w.platform document ≡ ok c.run_id
  unfolding run_id_of sorted_members sorted liqvera.Json.find insert_member str_eq
  run_id-ok r = ap (λ o. require record_invalid o) r.uuid

  -- A package that was written is accepted, and read as what was written.
  pub open_package-written :
      IsReadable w.platform c files
      → open_package w.platform (record { itself = folder; tree = written w c venue batch })
        ≡ ok (reader_of w c venue batch)
  unfolding open_package sorted_members sorted require_root manifest_bytes liqvera.Package.entry_at
      str_eq get insert_member declared_of sorted_items liqvera.Market.Common.str_lt
  open_package-written r =
      let root : Root = record { itself = folder; tree = written w c venue batch } in
      let tree = root.tree in
      let bytes = canonical_json_bytes w.platform (object (signed w.platform c files)) in
      >>=-ok (decode_canonical_json w.platform bytes) _ (decode-ok r)
      ∙ >>=-ok (require_manifest w.platform document) _ require_manifest-ok
      ∙ >>=-ok (declare_all w.platform [] (sorted_items (declared_of w.platform files))) _
          (declare_all-ok w.platform [] files plain.hexdigest files-IsFresh)
      ∙ >>=-ok (require_members w.platform tree (map (digest_of w.platform) files)) _
          require_members-ok
      ∙ >>=-ok (run_id_of w.platform document) _ (run_id-ok r)

-- Where nothing stands at an absolute root, or a real directory in which every entry is reached
-- through real directories, and the capture has an envelope and a venue: write_frozen_package
-- returns, and the reader's constructor accepts what it left, with the capture's run and the six
-- members with their digests. It is assumed that SHA-256 gives 64 hexadecimal digits, that
-- json.dumps with sort_keys does not depend on the order of keys, that json.loads of the written
-- manifest returns it with its keys sorted, that the six paths are read as they are written, and
-- that the run's text is a UUID's.
pub write_frozen_package-opens :
    (w : Serializer) (c : Capture) (root : Root) {venue : Str} {envelope : Str × List ℕ}
    → IsPlain w.platform
    → IsFree root
    → first_of c.venues ≡ ok venue
    → first_of c.envelopes ≡ ok envelope
    → IsReadable w.platform c (members_of w c venue envelope.1)
    → let (left, outcome) = write_frozen_package w true c root in
      (outcome ≡ ok tt) × (open_package w.platform left ≡ ok (reader_of w c venue envelope.1))
write_frozen_package-opens w c root {venue} {envelope} plain free v n readable =
    let opened = open_package-written w c venue envelope.1 plain readable in
    rw (write-written w c root free v n) (refl, opened)
