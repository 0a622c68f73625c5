-- ===== src/Writer/Written.antt =====
-- What `write_frozen_package` leaves in the directory.
use liqvera.Prelude.{
  ℕ, ◌≡◌, refl, ap, ◌∙◌, ◌⊎◌, inl, inr, true, false, not, List, [], ◌∷◌, ok, raise_if, arith,
}
use liqvera.Prelude.Action.{◌>>=◌, ◌>>◌, self, modify, >>=-step, >>=-call}
use liqvera.Python.{Str, value_error, codes, is_empty, any}
use liqvera.Json.{object, array, no_members, member}
use liqvera.Package.{missing, directory, Entry, Tree, Root, canonical_json_bytes}
use liqvera.Package.Reader.{manifest_name}
use liqvera.Writer.Site.{
  raised, folder, file, write_bytes, goes_with, remove_child, remove_children, clear_package_root,
  is_covered, is_rooted,
}
use liqvera.Writer.{
  Serializer, Capture, Files, on_tree, write_members, control_document, minute_document,
  terminal_document, line, envelope_ndjson, members_of, signed, write_frozen_package, make_root,
  fill, first_of, is_no_real_directory,
}

remove_child-is_covered :
    (child : Str × Entry) (above tree : Tree)
    → is_covered (child ∷ above) tree ≡ true
    → is_covered above (remove_child child tree) ≡ true
unfolding is_covered remove_child
remove_child-is_covered child above [] h = refl
remove_child-is_covered child above (entry ∷ tree) h =
    let later = remove_child-is_covered child above tree in ground (arith, later)

remove_children-empties :
    (above tree : Tree) → is_covered above tree ≡ true → remove_children above tree ≡ []
unfolding is_covered remove_children
remove_children-empties [] [] h = refl
remove_children-empties [] (entry ∷ tree) h = cc
remove_children-empties (child ∷ above) tree h =
    remove_children-empties above (remove_child child tree)
      (remove_child-is_covered child above tree h)

-- `_clear_package_root` leaves nothing, links to directories included.
pub clear_package_root-empties :
    (tree : Tree) → is_rooted tree ≡ true → clear_package_root tree ≡ []
unfolding clear_package_root
clear_package_root-empties tree h = remove_children-empties _ tree h

-- The package on the disk, over its six members and its manifest
abbrev pub package_of : List ℕ → List ℕ → List ℕ → List ℕ → List ℕ → List ℕ → List ℕ → Tree
package_of control batch envelopes minutes mappings terminal manifest =
    (codes "control_evidence", folder)
    ∷ (codes "control_evidence/records.ndjson", file control)
    ∷ (codes "manifest.json", file manifest)
    ∷ (codes "mapping_snapshot.json", file mappings)
    ∷ (codes "quality_minutes", folder)
    ∷ (codes "quality_minutes/records.ndjson", file minutes)
    ∷ (codes "raw_batches", folder)
    ∷ (codes "raw_batches/0.bin", file batch)
    ∷ (codes "raw_envelopes", folder)
    ∷ (codes "raw_envelopes/records.ndjson", file envelopes)
    ∷ (codes "terminal.json", file terminal)
    ∷ []

abbrev pub six : List ℕ → List ℕ → List ℕ → List ℕ → List ℕ → List ℕ → Files
six control batch envelopes minutes mappings terminal =
    (codes "control_evidence/records.ndjson", control)
    ∷ (codes "raw_batches/0.bin", batch)
    ∷ (codes "raw_envelopes/records.ndjson", envelopes)
    ∷ (codes "quality_minutes/records.ndjson", minutes)
    ∷ (codes "mapping_snapshot.json", mappings)
    ∷ (codes "terminal.json", terminal)
    ∷ []

write_members-package_of :
    (control batch envelopes minutes mappings terminal manifest : List ℕ)
    → (write_members (six control batch envelopes minutes mappings terminal)
          >> on_tree (write_bytes manifest_name manifest))
        (record { itself = folder; tree = [] })
      ≡ (
        record {
          itself = folder;
          tree = package_of control batch envelopes minutes mappings terminal manifest;
        },
        ok tt,
      )
unfolding ◌>>=◌ write_members liqvera.Writer.make_directories liqvera.Writer.Site.ancestors on_tree
    liqvera.Writer.Site.make_directory liqvera.Package.entry_at write_bytes
    liqvera.Writer.Site.place liqvera.Python.str_eq
write_members-package_of control batch envelopes minutes mappings terminal manifest = refl

-- What a capture with the first envelope's bytes and the first venue is written as
abbrev pub written : Serializer → Capture → Str → List ℕ → Tree
written w c venue batch =
    package_of (line w (control_document w c.started_at_ms batch)) batch
      (envelope_ndjson w c.started_at_ms 0 c.envelopes)
      (line w (minute_document c.started_at_ms venue))
      (line w (member (codes "mappings") (array c.mappings) no_members))
      (line w (terminal_document c.terminated_at_ms))
      (canonical_json_bytes w.platform (object (signed w.platform c (members_of w c venue batch))))

-- Nothing is there, or a directory in which nothing stands outside a directory.
abbrev pub nothing : Entry
nothing = record { is_link = false; target = missing }

pub record IsFree (root : Root) : Type 0 where
  pub known : (root.itself ≡ folder) ⊎ (root.itself ≡ nothing)
  pub rooted : is_rooted root.tree ≡ true

not_empty :
    (envelopes : Files) {envelope : Str × List ℕ}
    → first_of envelopes ≡ ok envelope
    → is_empty envelopes ≡ false
not_empty [] h = cc
not_empty (e ∷ envelopes) h = refl

make_root-step :
    (root : Root)
    → IsFree root
    → (tree : Tree) × (make_root root ≡ (record { itself = folder; tree = tree }, ok tt))
      × (is_rooted tree ≡ true)
unfolding make_root is_covered
make_root-step root free = elim free.known [
  | inl e ↦ (root.tree, rw e refl, free.rooted)
  | inr e ↦ ([], rw e refl, refl)
]

real : (root : Root) → IsFree root → is_no_real_directory root.itself ≡ false
real root free = elim free.known [ inl e ↦ rw e refl | inr e ↦ rw e refl ]

-- The call, where the root is free and neither sequence is empty, returns and leaves the package.
pub write-written :
    (w : Serializer) (c : Capture) (root : Root) {venue : Str} {envelope : Str × List ℕ}
    → IsFree root
    → first_of c.venues ≡ ok venue
    → first_of c.envelopes ≡ ok envelope
    → write_frozen_package w true c root
      ≡ (record { itself = folder; tree = written w c venue envelope.1 }, ok tt)
unfolding write_frozen_package fill
write-written w c root {venue} {envelope} free v n =
    let (tree, made, rooted) = make_root-step root free in
    let start : Root = record { itself = folder; tree = tree } in
    let empty : Root = record { itself = folder; tree = [] } in
    >>=-call (raise_if (not true) (raised value_error)) _ root refl
    ∙ >>=-step self _ root refl
    ∙ >>=-call (raise_if (is_no_real_directory root.itself) (raised value_error)) _ root
        (ap (λ b. raise_if b (raised value_error)) (real root free))
    ∙ >>=-call (raise_if (is_empty c.envelopes) (raised value_error)) _ root
        (ap (λ b. raise_if b (raised value_error)) (not_empty c.envelopes n))
    ∙ >>=-step make_root _ root made
    ∙ >>=-step
        (modify (λ (r : Root). record { itself = r.itself; tree = clear_package_root r.tree })) _
        start
        (ap (λ t. (record { itself = folder; tree = t }, ok tt))
          (clear_package_root-empties tree rooted))
    ∙ >>=-call (first_of c.envelopes) _ empty n
    ∙ >>=-call (first_of c.venues) _ empty v
    ∙ write_members-package_of (line w (control_document w c.started_at_ms envelope.1)) envelope.1
        (envelope_ndjson w c.started_at_ms 0 c.envelopes)
        (line w (minute_document c.started_at_ms venue))
        (line w (member (codes "mappings") (array c.mappings) no_members))
        (line w (terminal_document c.terminated_at_ms))
        (canonical_json_bytes w.platform
          (object (signed w.platform c (members_of w c venue envelope.1))))
