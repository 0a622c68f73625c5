-- ===== src/Identity.antt =====
-- The binding of rebuilt books to sealed mappings,
-- packages/readonly-analyzer/src/liqvera_readonly_analyzer/identity.py.
pub mod Binding
use liqvera.Prelude.{
  ℕ, Bool, true, false, not, ◌&&◌, ◌||◌, List, [], ◌∷◌, Option, none, some, Result, ok, err, ◌>>=◌,
  ◌>>◌, raise_if, ◌==◌, if◌then◌else◌,
}
use liqvera.Prelude.Int.{ℤ, pos, leb_ℤ}
use liqvera.Python.{Str, Unicode, codes, is_empty, str_eq, starts_with, isdigit, int_text}
use liqvera.Provenance.{is_approved, is_current, MarketMappingEvidence}
use liqvera.Reconstruction.Book
use liqvera.Reconstruction.Book.{ReconstructedBook, channel_prefix, channel_suffix, is_none}

-- IdentityBindError; the plain ValueError of `int`; and what the constructor of a book raises.
pub data Error : Type 0 where
  identity_bind_error value_error : Error
  book_error : Book.Error → Error

-- `[x for x in xs if test(x)]`
unfoldable pub select {ℓ} : {A : Type ℓ} → (A → Bool) → List A → List A
select test [] = []
select test (x ∷ xs) = let rest = select test xs in if test x then x ∷ rest else rest

-- `_is_candidate`
unfoldable pub is_candidate : Unicode → MarketMappingEvidence → ReconstructedBook → Bool
is_candidate u m b =
    is_approved m.decision
    && str_eq (u.casefold m.venue) (u.casefold b.snapshot.venue)
    && str_eq m.symbol b.snapshot.symbol
    && is_current m b.snapshot.received_timestamp_ms

-- `mapping.lighter_market_index == index`
abbrev pub has_index : ℕ → MarketMappingEvidence → Bool
has_index index m = elim m.lighter_market_index [ none ↦ false | some i ↦ i == index ]

-- The market index in the channel of a Lighter book.
unfoldable pub market_index : Unicode → Option Str → Result Error ℕ
market_index u none = err identity_bind_error
market_index u (some channel) = do
  raise_if (not (starts_with channel_prefix channel)) identity_bind_error
  raise_if (not (isdigit u (channel_suffix channel))) identity_bind_error
  elim (int_text u (channel_suffix channel)) [ none ↦ err value_error | some index ↦ ok index ]

-- The end of `_lighter_candidates`: the mappings with the index, or else those without one.
unfoldable pub candidates_at :
    Unicode → List MarketMappingEvidence → ReconstructedBook → ℕ → List MarketMappingEvidence
unfolding select
candidates_at u mappings b index =
    let indexed = select (λ m. is_candidate u m b && has_index index m) mappings in
    if is_empty indexed
    then select (λ m. is_candidate u m b && is_none m.lighter_market_index) mappings
    else indexed

unfoldable pub lighter_candidates :
    Unicode
    → List MarketMappingEvidence
    → ReconstructedBook
    → Result Error (List MarketMappingEvidence)
lighter_candidates u mappings b = do
  index ← market_index u b.channel
  ok (candidates_at u mappings b index)

unfoldable pub candidates :
    Unicode
    → List MarketMappingEvidence
    → ReconstructedBook
    → Result Error (List MarketMappingEvidence)
candidates u mappings b =
    if str_eq (u.casefold b.snapshot.venue) (codes "lighter")
    then lighter_candidates u mappings b
    else ok (select (λ m. is_candidate u m b) mappings)

-- `replace(book, mapping_id=chosen.mapping_id, mapping=chosen)`, before the tests of the constructor
abbrev pub with_mapping : ReconstructedBook → MarketMappingEvidence → ReconstructedBook
with_mapping b m = record {
  snapshot = b.snapshot;
  envelope_index = b.envelope_index;
  payload_sha256 = b.payload_sha256;
  decoder_id = b.decoder_id;
  epoch_id = b.epoch_id;
  mapping_id = some m.mapping_id;
  mapping = some m;
  channel = b.channel;
}

unfoldable pub admitted : Result Book.Error ReconstructedBook → Result Error ReconstructedBook
admitted (ok b) = ok b
admitted (err e) = err (book_error e)

-- `len(candidates) != 1`, and the choice
unfoldable pub choose :
    Unicode → ReconstructedBook → List MarketMappingEvidence → Result Error ReconstructedBook
choose u b (m ∷ []) = admitted (Book.admit u (with_mapping b m))
choose u b _ = err identity_bind_error

-- One round of the loop.
unfoldable pub bind_book :
    Unicode → List MarketMappingEvidence → ReconstructedBook → Result Error ReconstructedBook
bind_book u mappings b = do
  raise_if (not (is_none b.mapping_id) || not (is_none b.mapping)) identity_bind_error
  found ← candidates u mappings b
  choose u b found

unfoldable pub bind_reconstructed_books :
    Unicode
    → List ReconstructedBook
    → List MarketMappingEvidence
    → Result Error (List ReconstructedBook)
bind_reconstructed_books u [] mappings = ok []
bind_reconstructed_books u (b ∷ books) mappings = do
  bound ← bind_book u mappings b
  rest ← bind_reconstructed_books u books mappings
  ok (bound ∷ rest)
