-- ===== src/Writer/Envelopes.antt =====
-- The envelopes that are read back from a written package.
use liqvera.Prelude.{
  both, sym, ◌∙◌, ap, ◌&&◌, not, leb, ◌==◌, ◌++◌, append_assoc, all, arith, Bool, if◌then◌else◌,
  Bool-cases, inl, inr, ℕ, suc, ◌≡◌, refl, true, false, List, [], ◌∷◌, map, All, some, ok,
}
use liqvera.Prelude.Int.{pos}
use liqvera.Python.{Str, is_sha256, is_empty, codes}
use liqvera.Json.{Json, object, Members}
use liqvera.Evidence.{RawPublicEnvelope}
use liqvera.Package.Mappings.{require_run}
use liqvera.Package.{Platform, Error}
use liqvera.Package.Records.{
  read_text, rows_of_lines, read_ndjson, build_all, envelope_of_row, iter_raw_envelopes,
}
use liqvera.Writer.{Serializer, Capture, Files, envelope_document, envelope_ndjson}
use liqvera.Writer.Accepted.{IsPlain, reader_of, str_eq_refl}

unfoldable pub envelope_documents : Serializer → Capture → ℕ → Files → List Members
envelope_documents w c index [] = []
envelope_documents w c index (envelope ∷ envelopes) =
    envelope_document w c.started_at_ms index envelope
    ∷ envelope_documents w c (suc index) envelopes

-- A printable character of ASCII
abbrev pub is_plain : ℕ → Bool
is_plain c = leb 32 c && leb c 126

-- The codecs on lines of printable ASCII: `bytes.decode`, `io.TextIOWrapper` and `str.splitlines`
pub record IsCodec (p : Platform) : Type 0 where
  pub decodes_ascii : (s : Str) → all (λ c. leb c 127) s ≡ true → p.decode_utf8 s ≡ some s
  pub keeps_newlines : (s : Str) → all (λ c. not (c == 13)) s ≡ true → p.universal_newlines s ≡ s
  pub no_lines : p.split_lines [] ≡ []
  pub one_line :
      (line rest : Str)
      → all is_plain line ≡ true
      → p.split_lines (line ++ b'\n' ∷ rest) ≡ line ∷ p.split_lines rest

-- `json.dumps` of a document is printable ASCII, and `json.loads` inverts it.
pub record IsDumped (w : Serializer) (d : Members) : Type 0 where
  pub printable : all is_plain (w.default_dumps (object d)) ≡ true
  pub loads : w.platform.loads (w.default_dumps (object d)) ≡ ok (object d)

-- Lines, each with its newline
unfoldable pub joined : List Str → Str
joined [] = []
joined (line ∷ lines) = line ++ b'\n' ∷ joined lines

abbrev texts_of : Serializer → List Members → List Str
texts_of w documents = map (λ d. w.default_dumps (object d)) documents

envelope_ndjson-joined :
    (w : Serializer) (c : Capture) (index : ℕ) (envelopes : Files)
    → envelope_ndjson w c.started_at_ms index envelopes
      ≡ joined (texts_of w (envelope_documents w c index envelopes))
unfolding envelope_ndjson envelope_documents joined
envelope_ndjson-joined w c index [] = refl
envelope_ndjson-joined w c index (envelope ∷ envelopes) =
    append_assoc (w.default_dumps (object (envelope_document w c.started_at_ms index envelope)))
      (b'\n' ∷ []) (envelope_ndjson w c.started_at_ms (suc index) envelopes)
    ∙ ap
        (λ rest.
          w.default_dumps (object (envelope_document w c.started_at_ms index envelope))
          ++ b'\n' ∷ rest)
        (envelope_ndjson-joined w c (suc index) envelopes)

plain-ascii : (c : ℕ) → is_plain c ≡ true → leb c 127 ≡ true
plain-ascii c h = ground arith

plain-no_return : (c : ℕ) → is_plain c ≡ true → not (c == 13) ≡ true
plain-no_return c h = ground arith

all-line :
    (test : ℕ → Bool) (rest : Str)
    → ((c : ℕ) → is_plain c ≡ true → test c ≡ true)
    → test b'\n' ≡ true
    → all test rest ≡ true
    → (s : Str) → all is_plain s ≡ true
    → all test (s ++ b'\n' ∷ rest) ≡ true
all-line test rest plain newline later [] k = rw (newline, later) refl
all-line test rest plain newline later (c ∷ s) k =
    let (first, others) = both k in
    rw (plain c first, all-line test rest plain newline later s others) refl

all-joined :
    (test : ℕ → Bool) (lines : List Str)
    → ((c : ℕ) → is_plain c ≡ true → test c ≡ true)
    → test b'\n' ≡ true
    → All (λ line. all is_plain line ≡ true) lines
    → all test (joined lines) ≡ true
unfolding joined
all-joined test [] plain newline h = refl
all-joined test (line ∷ lines) plain newline (here, there) =
    all-line test (joined lines) plain newline (all-joined test lines plain newline there) line here

split_lines-joined :
    (p : Platform) (lines : List Str)
    → IsCodec p
    → All (λ line. all is_plain line ≡ true) lines
    → p.split_lines (joined lines) ≡ lines
unfolding joined
split_lines-joined p [] codec h = codec.no_lines
split_lines-joined p (line ∷ lines) codec (here, there) =
    codec.one_line line (joined lines) here
    ∙ ap (λ rest. line ∷ rest) (split_lines-joined p lines codec there)

texts-plain :
    (w : Serializer) (documents : List Members)
    → All (IsDumped w) documents
    → All (λ line. all is_plain line ≡ true) (texts_of w documents)
texts-plain w [] h = tt
texts-plain w (d ∷ documents) (here, there) = (here.printable, texts-plain w documents there)

texts-load :
    (w : Serializer) (documents : List Members)
    → All (IsDumped w) documents
    → map w.platform.loads (texts_of w documents) ≡ map (λ d. ok (object d)) documents
texts-load w [] h = refl
texts-load w (d ∷ documents) (here, there) = rw (here.loads, texts-load w documents there) refl

-- The member's text reads as the documents' rows.
read_text-joined :
    (p : Platform) (lines : List Str)
    → IsCodec p
    → All (λ line. all is_plain line ≡ true) lines
    → (p.decode_utf8 (joined lines) ≡ some (joined lines))
      × (p.universal_newlines (joined lines) ≡ joined lines)
read_text-joined p lines codec h = (
  codec.decodes_ascii (joined lines) (all-joined (λ c. leb c 127) lines plain-ascii refl h),
  codec.keeps_newlines (joined lines)
      (all-joined (λ c. not (c == 13)) lines plain-no_return refl h),
)

-- The records that the reader makes, from an index on
unfoldable pub envelopes_of : Serializer → Capture → ℕ → ℕ → Files → List RawPublicEnvelope
envelopes_of w c started index [] = []
envelopes_of w c started index ((venue, payload) ∷ envelopes) =
    record {
      capture_run_id = c.run_id;
      envelope_index = index;
      observed_at_ms = started;
      venue = venue;
      payload_sha256 = w.platform.sha256 payload;
      payload = payload;
    }
    ∷ envelopes_of w c started (suc index) envelopes

rows_of_lines-ok :
    (p : Platform) (lines : List Str) (documents : List Members)
    → map p.loads lines ≡ map (λ d. ok (object d)) documents
    → rows_of_lines p lines ≡ ok documents
unfolding rows_of_lines
rows_of_lines-ok p [] [] h = refl
rows_of_lines-ok p [] (d ∷ documents) h = cc
rows_of_lines-ok p (line ∷ lines) [] h = cc
rows_of_lines-ok p (line ∷ lines) (d ∷ documents) h =
    let first : p.loads line ≡ ok (object d) = cc in
    let later : map p.loads lines ≡ map (λ d. ok (object d)) documents = cc in
    rw (first, rows_of_lines-ok p lines documents later) refl

envelope_of_row-ok :
    (w : Serializer) (c : Capture) (started index : ℕ) (venue : Str) (payload : List ℕ)
    → c.started_at_ms ≡ pos started
    → is_empty venue ≡ false
    → w.platform.from_hex (w.hex payload) ≡ some payload
    → is_sha256 (w.platform.sha256 payload) ≡ true
    → envelope_of_row w.platform c.run_id
        (envelope_document w c.started_at_ms index (venue, payload))
      ≡ ok (record {
        capture_run_id = c.run_id;
        envelope_index = index;
        observed_at_ms = started;
        venue = venue;
        payload_sha256 = w.platform.sha256 payload;
        payload = payload;
      })
unfolding envelope_of_row liqvera.Json.find liqvera.Python.str_eq
    liqvera.Evidence.raw_public_envelope
envelope_of_row-ok w c started index venue payload since named hex digest =
    rw (since, hex, named, digest) refl

build_all-ok :
    (w : Serializer) (c : Capture) (started index : ℕ) (envelopes : Files)
    → IsPlain w.platform
    → c.started_at_ms ≡ pos started
    → ((bytes : List ℕ) → w.platform.from_hex (w.hex bytes) ≡ some bytes)
    → All (λ envelope. is_empty envelope.0 ≡ false) envelopes
    → build_all (envelope_of_row w.platform c.run_id) (envelope_documents w c index envelopes)
      ≡ ok (envelopes_of w c started index envelopes)
unfolding build_all envelope_documents envelopes_of
build_all-ok w c started index [] plain since hex named = refl
build_all-ok w c started index ((venue, payload) ∷ envelopes) plain since hex (first, named) =
    rw
      (
        envelope_of_row-ok w c started index venue payload since first (hex payload)
            (plain.hexdigest payload),
        build_all-ok w c started (suc index) envelopes plain since hex named,
      )
      refl

never_empty : (s rest : Str) → is_empty (s ++ b'\n' ∷ rest) ≡ false
never_empty [] rest = refl
never_empty (c ∷ s) rest = refl

no_documents :
    (w : Serializer) (documents : List Members)
    → is_empty (joined (texts_of w documents)) ≡ true
    → documents ≡ []
unfolding joined
no_documents w [] h = refl
no_documents w (d ∷ documents) h =
    let e = never_empty (w.default_dumps (object d)) (joined (texts_of w documents)) in cc

rows_of_joined :
    (w : Serializer) (documents : List Members)
    → IsCodec w.platform
    → All (IsDumped w) documents
    → (if is_empty (joined (texts_of w documents))
        then ok []
        else rows_of_lines w.platform (w.platform.split_lines (joined (texts_of w documents))))
      ≡ ok documents
rows_of_joined w documents codec dumped =
    let lines = texts_of w documents in
    let read : rows_of_lines w.platform (w.platform.split_lines (joined lines)) ≡ ok documents =
      ap (rows_of_lines w.platform)
        (split_lines-joined w.platform lines codec (texts-plain w documents dumped))
      ∙ rows_of_lines-ok w.platform lines documents (texts-load w documents dumped) in
    elim (Bool-cases (is_empty (joined lines))) [
      | inl e ↦ rw e (ap (λ d. ok d) (sym (no_documents w documents e)))
      | inr e ↦ rw e read
    ]

-- On the reader of a written package, iter_raw_envelopes returns the envelopes of the capture,
-- each with its index in the capture, its venue, its payload and the payload's SHA-256, and
-- observed when the capture started: where the start is not negative, no venue is empty,
-- bytes.fromhex inverts bytes.hex, SHA-256 gives 64 hexadecimal digits, the text codecs leave
-- ASCII without carriage returns as it is, splitlines takes off one printable line at a time, and
-- json.dumps writes each envelope's document as printable ASCII that json.loads reads back.
pub iter_raw_envelopes-written :
    (w : Serializer) (c : Capture) (venue : Str) (batch : List ℕ) {started : ℕ}
    → IsPlain w.platform
    → IsCodec w.platform
    → c.started_at_ms ≡ pos started
    → ((bytes : List ℕ) → w.platform.from_hex (w.hex bytes) ≡ some bytes)
    → All (λ envelope. is_empty envelope.0 ≡ false) c.envelopes
    → All (IsDumped w) (envelope_documents w c 0 c.envelopes)
    → iter_raw_envelopes w.platform (reader_of w c venue batch) c.run_id
      ≡ ok (envelopes_of w c started 0 c.envelopes)
unfolding iter_raw_envelopes require_run read_ndjson read_text liqvera.Package.read_bytes
    envelopes_of liqvera.Package.entry_at liqvera.Python.str_eq
iter_raw_envelopes-written w c venue batch {started} plain codec since hex named dumped =
    let documents = envelope_documents w c 0 c.envelopes in
    let (decoded, kept) =
      read_text-joined w.platform (texts_of w documents) codec (texts-plain w documents dumped) in
    rw
      (
        str_eq_refl c.run_id,
        envelope_ndjson-joined w c 0 c.envelopes,
        decoded,
        kept,
        rows_of_joined w documents codec dumped,
      )
      (build_all-ok w c started 0 c.envelopes plain since hex named)
