-- ===== src/Writer/Site.antt =====
-- The directory that a package is written to: Path.mkdir, Path.write_bytes, shutil.rmtree and
-- `_clear_package_root` of packages/public-capture/src/liqvera_public_capture/package.py, over the
-- tree that the reader scans.
use liqvera.Prelude.{
  ℕ, Bool, true, false, not, ◌&&◌, ◌||◌, List, [], ◌∷◌, ◌++◌, none, some, Result, ok, err, ◌==◌,
  if◌then◌else◌,
}
use liqvera.Python.{Str, Raised, os_error, split_on, str_eq, starts_with, any}
use liqvera.Market.Common.{texts_lt, insert_by}
use liqvera.Package.{Target, directory, special, regular, Entry, Tree, entry_at}

-- What is raised: an exception that the other packages tell apart, or IndexError.
pub data Failure : Type 0 where
  raised : Raised → Failure
  index_error : Failure

abbrev pub folder : Entry
folder = record { is_link = false; target = directory }

abbrev pub file : List ℕ → Entry
file bytes = record { is_link = false; target = regular bytes }

-- `<` of two paths compares their parts.
abbrev path_lt : Str → Str → Bool
path_lt s t = texts_lt (split_on b'/' s) (split_on b'/' t)

-- A new entry, at its place in the order of the scan
unfoldable pub place : Str → Entry → Tree → Tree
unfolding texts_lt split_on insert_by
place path e tree =
    insert_by (λ (x : Str × Entry) (y : Str × Entry). path_lt x.0 y.0) (path, e) tree

unfoldable pub retarget : Str → Target → Tree → Tree
retarget path t [] = []
retarget path t ((q, e) ∷ tree) =
    let rest = retarget path t tree in
    if str_eq q path then (q, record { is_link = e.is_link; target = t }) ∷ tree else (q, e) ∷ rest

-- `mkdir(exist_ok=True)` below the root
unfoldable pub make_directory : Str → Tree → Result Failure Tree
make_directory path tree = elim (entry_at path tree) [
  | none ↦ ok (place path folder tree)
  | some e ↦ elim e.target [ directory ↦ ok tree | _ ↦ err (raised os_error) ]
]

-- `write_bytes`
unfoldable pub write_bytes : Str → List ℕ → Tree → Result Failure Tree
write_bytes path bytes tree = elim (entry_at path tree) [
  | none ↦ ok (place path (file bytes) tree)
  | some e ↦ elim e.target [
    | directory ↦ err (raised os_error)
    | special ↦ ok tree
    | _ ↦ ok (retarget path (regular bytes) tree)
  ]
]

-- The directories above a path, the outermost first
unfoldable pub ancestors : Str → Str → List Str
ancestors before [] = []
ancestors before (c ∷ s) =
    let rest = ancestors (before ++ c ∷ []) s in if c == b'/' then before ∷ rest else rest

abbrev pub has_no_slash : Str → Bool
has_no_slash s = not (any (λ c. c == b'/') s)

-- `root.iterdir()`
unfoldable pub children : Tree → Tree
children [] = []
children ((path, e) ∷ tree) =
    let rest = children tree in if has_no_slash path then (path, e) ∷ rest else rest

abbrev is_directory : Target → Bool
is_directory directory = true
is_directory _ = false

-- What goes when a child goes: the child itself and, where it is a real directory, all below it.
unfoldable pub goes_with : Str × Entry → Str × Entry → Bool
goes_with (path, e) (q, other) =
    str_eq q path || is_directory e.target && not e.is_link && starts_with (path ++ b'/' ∷ []) q

unfoldable pub remove_child : Str × Entry → Tree → Tree
remove_child child [] = []
remove_child child (entry ∷ tree) =
    let rest = remove_child child tree in if goes_with child entry then rest else entry ∷ rest

unfoldable pub remove_children : Tree → Tree → Tree
remove_children [] tree = tree
remove_children (child ∷ later) tree = remove_children later (remove_child child tree)

-- `_clear_package_root`
unfoldable pub clear_package_root : Tree → Tree
clear_package_root tree = remove_children (children tree) tree

-- Every entry goes with one of the children.
unfoldable pub is_covered : Tree → Tree → Bool
is_covered above [] = true
is_covered above (entry ∷ tree) =
    any (λ child. goes_with child entry) above && is_covered above tree

-- Every entry is a child of the root or stands below one that is a real directory.
abbrev pub is_rooted : Tree → Bool
is_rooted tree = is_covered (children tree) tree
