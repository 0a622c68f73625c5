-- ===== src/Tests/Writing.antt =====
-- A small capture, written and read.
use liqvera.Prelude.{
  both, ◌++◌, All, all, false, ℕ, ◌+◌, ◌%◌, ◌≡◌, refl, inl, true, List, [], ◌∷◌, Result, ok, err,
  arith, length, leb_iff, ◌==◌, if◌then◌else◌,
}
use liqvera.Prelude.Int.{pos}
use liqvera.Python.{
  Str, Raised, decode_error, codes, zeros, is_sha256, is_hex, starts_with, cons_head,
}
use liqvera.Json.{Json, integer, text, object, no_items, no_members, member}
use liqvera.Package.Reader.{open_package}
use liqvera.Package.Records.{iter_raw_envelopes}
use liqvera.Writer.{Serializer, Capture, Files, members_of, signed, write_frozen_package}
use liqvera.Writer.Sorted.{sorted_members}
use liqvera.Writer.Written.{IsFree}
use liqvera.Writer.Accepted.{IsPlain, IsReadable, reader_of, write_frozen_package-opens}
use liqvera.Writer.Envelopes.{
  is_plain, IsCodec, IsDumped, envelope_documents, envelopes_of, iter_raw_envelopes-written,
}
use liqvera.Tests.Frozen.{toy_sha256, toy_platform, toy_root}

abbrev capture : Capture
capture = record {
  run_id = codes "run";
  started_at_ms = pos 61_000;
  terminated_at_ms = pos 125_000;
  venues = codes "LIGHTER" ∷ [];
  envelopes = (codes "LIGHTER", 1 ∷ 2 ∷ 3 ∷ []) ∷ (codes "HYPERLIQUID", 4 ∷ []) ∷ [];
  mappings = no_items;
}

-- One letter, and the index of an envelope
abbrev toy_default_dumps : Json → List ℕ
toy_default_dumps (object (member k (integer (pos n)) rest)) = b'E' ∷ (48 + n) ∷ []
toy_default_dumps _ = b'D' ∷ []

unfoldable toy_lines : Str → List Str
toy_lines [] = []
toy_lines (c ∷ s) = let rest = toy_lines s in if c == b'\n' then [] ∷ rest else cons_head c rest

abbrev mute : Serializer
mute = record { platform = toy_platform; default_dumps = toy_default_dumps; hex = λ s. s }

abbrev files : Files
files = members_of mute capture (codes "LIGHTER") (1 ∷ 2 ∷ 3 ∷ [])

abbrev document : ℕ → Json
document n = object (
    member (codes "envelope_index") (integer (pos n)) (
      member (codes "observed_at_ms") (integer (pos 61_000)) (
        member (codes "venue") (text (if n == 0 then codes "LIGHTER" else codes "HYPERLIQUID")) (
          member (codes "payload_hex") (text (if n == 0 then 1 ∷ 2 ∷ 3 ∷ [] else 4 ∷ []))
            no_members))))

abbrev toy_loads : Str → Result Raised Json
toy_loads s =
    if starts_with (codes "M") s
    then ok (object (sorted_members (signed toy_platform capture files)))
    else if starts_with (codes "E0") s
    then ok (document 0)
    else if starts_with (codes "E1") s
    then ok (document 1)
    else err decode_error

abbrev writer : Serializer
writer = record mute {
  platform = record toy_platform { loads = toy_loads; split_lines = toy_lines };
}

toy_sha256-long : (bytes : List ℕ) → is_sha256 (toy_sha256 bytes) ≡ true
unfolding is_sha256 zeros
toy_sha256-long bytes =
    let low = (leb_iff 48 (48 + length bytes % 10)).1 (omega arith) in
    let high = (leb_iff (48 + length bytes % 10) 57).1 (omega arith) in rw (low, high) refl

writer-IsPlain : IsPlain writer.platform
unfolding starts_with
writer-IsPlain = record {
  hexdigest = toy_sha256-long;
  sort_keys = λ j. refl;
  posix = (refl, (refl, (refl, (refl, (refl, (refl, tt))))));
}

toy_root-IsFree : IsFree toy_root
unfolding liqvera.Writer.Site.is_covered liqvera.Writer.Site.children liqvera.Writer.Site.goes_with
    liqvera.Python.str_eq starts_with
toy_root-IsFree = record { known = inl refl; rooted = refl }

readable :
    IsReadable writer.platform capture
      (members_of writer capture (codes "LIGHTER") (1 ∷ 2 ∷ 3 ∷ []))
unfolding starts_with liqvera.Writer.Sorted.sorted liqvera.Writer.Sorted.sorted_items
    liqvera.Writer.Sorted.sorted_members liqvera.Writer.declared_of liqvera.Writer.envelope_ndjson
    liqvera.Writer.minute_of zeros
readable = record { loads = refl; uuid = refl }

write_frozen_package-opens_example :
    let (left, outcome) = write_frozen_package writer true capture toy_root in
    (outcome ≡ ok tt)
    × (open_package writer.platform left
        ≡ ok (reader_of writer capture (codes "LIGHTER") (1 ∷ 2 ∷ 3 ∷ [])))
write_frozen_package-opens_example =
    write_frozen_package-opens writer capture toy_root writer-IsPlain toy_root-IsFree refl refl
      readable

toy_lines-line :
    (line rest : Str)
    → all is_plain line ≡ true
    → toy_lines (line ++ b'\n' ∷ rest) ≡ line ∷ toy_lines rest
unfolding toy_lines cons_head
toy_lines-line [] rest h = refl
toy_lines-line (c ∷ line) rest h =
    let (first, later) = both h in
    let other : (c == b'\n') ≡ false = ground arith in
    rw (other, toy_lines-line line rest later) refl

writer-IsCodec : IsCodec writer.platform
unfolding toy_lines
writer-IsCodec = record {
  decodes_ascii = λ s h. refl;
  keeps_newlines = λ s h. refl;
  no_lines = refl;
  one_line = λ line rest h. toy_lines-line line rest h;
}

documents-IsDumped : All (IsDumped writer) (envelope_documents writer capture 0 capture.envelopes)
unfolding envelope_documents starts_with
documents-IsDumped =
    (record { printable = refl; loads = refl }, (record { printable = refl; loads = refl }, tt))

iter_raw_envelopes-written_example :
    iter_raw_envelopes writer.platform
      (reader_of writer capture (codes "LIGHTER") (1 ∷ 2 ∷ 3 ∷ []))
      (codes "run")
    ≡ ok (envelopes_of writer capture 61_000 0 capture.envelopes)
iter_raw_envelopes-written_example =
    iter_raw_envelopes-written writer capture (codes "LIGHTER") (1 ∷ 2 ∷ 3 ∷ []) writer-IsPlain
      writer-IsCodec refl (λ bytes. refl) (refl, (refl, tt)) documents-IsDumped
