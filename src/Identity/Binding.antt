-- ===== src/Identity/Binding.antt =====
-- What the mappings that `bind_reconstructed_books` attaches have to do with the books.
use mathlib.Core.List.{Memᴰ}
use mathlib.Core.List.Memᴰ
use liqvera.Prelude.{
  both, ℕ, ◌≡◌, refl, sym, ap, subst, ◌∙◌, Bool, true, false, not, ◌&&◌, ◌||◌, List, [], ◌∷◌,
  Result, ok, err, ok-injective, >>=-eq-ok, arith, Bool-cases, inl, inr, raise_if,
}
use liqvera.Python.{Unicode, is_empty, codes, str_eq, str_eq_iff}
use liqvera.Provenance.{MarketMappingEvidence, approved}
use liqvera.Provenance.Current.{IsCurrent, is_approved-eq, is_current-IsCurrent}
use liqvera.Reconstruction.Book
use liqvera.Reconstruction.Book.{ReconstructedBook, is_none}
use liqvera.Identity.{
  identity_bind_error, select, is_candidate, has_index, candidates_at, lighter_candidates,
  candidates, with_mapping, admitted, choose, bind_book, bind_reconstructed_books, market_index,
}

module _ {ℓ} {A : Type ℓ} (test : A → Bool) where
  select-Mem : (x : A) (xs : List A) → Memᴰ x (select test xs) → Memᴰ x xs × (test x ≡ true)
  unfolding select
  select-Mem x [] h = absurd (Memᴰ.not-nil h)
  select-Mem x (y ∷ xs) h = elim (Bool-cases (test y)) [
    | inl e ↦ elim (Memᴰ.cases_cons (rw e at h)) [
      | inl f ↦ (Memᴰ.head f, rw f e)
      | inr k ↦ let (m, t) = select-Mem x xs k in (Memᴰ.tail m, t)
    ]
    | inr e ↦ let (m, t) = select-Mem x xs (rw e at h) in (Memᴰ.tail m, t)
  ]

  Mem-select : (x : A) (xs : List A) → Memᴰ x xs → test x ≡ true → Memᴰ x (select test xs)
  unfolding select
  Mem-select x [] h e = absurd (Memᴰ.not-nil h)
  Mem-select x (y ∷ xs) h e = elim (Memᴰ.cases_cons h) [
    | inl f ↦ rw (← f, e) (Memᴰ.head refl)
    | inr k ↦ elim (Bool-cases (test y)) [
      | inl t ↦ rw t (Memᴰ.tail (Mem-select x xs k e))
      | inr t ↦ rw t (Mem-select x xs k e)
    ]
  ]

module _ (u : Unicode) (mappings : List MarketMappingEvidence) (b : ReconstructedBook) where
  candidates_at-Mem :
      (index : ℕ) (m : MarketMappingEvidence)
      → Memᴰ m (candidates_at u mappings b index)
      → Memᴰ m mappings × (is_candidate u m b ≡ true)
  unfolding candidates_at
  candidates_at-Mem index m h =
      elim (Bool-cases
        (is_empty (select (λ x. is_candidate u x b && has_index index x) mappings))) [
          | inl e ↦
              let (k, t) =
                select-Mem (λ x. is_candidate u x b && is_none x.lighter_market_index) m mappings
                  (rw e at h) in
              (k, ground arith)
          | inr e ↦
              let (k, t) =
                select-Mem (λ x. is_candidate u x b && has_index index x) m mappings (rw e at h) in
              (k, ground arith)
        ]

  candidates-Mem :
      (m : MarketMappingEvidence) {found : List MarketMappingEvidence}
      → candidates u mappings b ≡ ok found
      → Memᴰ m found
      → Memᴰ m mappings × (is_candidate u m b ≡ true)
  unfolding candidates lighter_candidates
  candidates-Mem m {found} h k =
      elim (Bool-cases (str_eq (u.casefold b.snapshot.venue) (codes "lighter"))) [
        | inl e ↦
            let (index, read, at) =
              >>=-eq-ok (market_index u b.channel) (λ i. ok (candidates_at u mappings b i))
                (rw e at h) in
            candidates_at-Mem index m (rw (ok-injective at) k)
        | inr e ↦ select-Mem (λ x. is_candidate u x b) m mappings (rw (ok-injective (rw e at h)) k)
      ]

admitted-ok :
    (r : Result Book.Error ReconstructedBook) {c : ReconstructedBook} → admitted r ≡ ok c → r ≡ ok c
unfolding admitted
admitted-ok (ok b) h = ap ok (ok-injective h)
admitted-ok (err e) h = cc

choose-single :
    (u : Unicode) (b : ReconstructedBook) (found : List MarketMappingEvidence)
    {c : ReconstructedBook}
    → choose u b found ≡ ok c
    → (m : MarketMappingEvidence) × (found ≡ m ∷ []) × (with_mapping b m ≡ c)
unfolding choose
choose-single u b [] h = cc
choose-single u b (m ∷ []) h = (
  m,
  refl,
  (Book.admit-eq u (with_mapping b m)).holds _ (admitted-ok (Book.admit u (with_mapping b m)) h),
)
choose-single u b (m ∷ n ∷ found) h = cc

module _ (u : Unicode) (mappings : List MarketMappingEvidence) (b : ReconstructedBook)
    {c : ReconstructedBook} (h : bind_book u mappings b ≡ ok c) where
  bind_book-found :
      (found : List MarketMappingEvidence) × (candidates u mappings b ≡ ok found)
      × (choose u b found ≡ ok c)
  unfolding bind_book
  bind_book-found =
      let (one, unbound, rest) =
        >>=-eq-ok
          (raise_if (not (is_none b.mapping_id) || not (is_none b.mapping)) identity_bind_error) _
          {last = c} h in
      >>=-eq-ok (candidates u mappings b) (choose u b) rest

  -- What is bound is a candidate from the list, and nothing else of the book changes.
  pub bind_book-candidate :
      (m : MarketMappingEvidence) × Memᴰ m mappings
      × (is_candidate u m b ≡ true)
      × (c ≡ with_mapping b m)
  bind_book-candidate =
      let (found, e, chosen) = bind_book-found in
      let (m, single, made) = choose-single u b found chosen in
      let (k, t) = candidates-Mem u mappings b m e (rw single (Memᴰ.head refl)) in
      (m, k, t, sym made)

  -- For a book whose venue is not Lighter, where bind_book returns, any mapping of the list that
  -- is a candidate for the book is the one that was bound.
  pub bind_book_unique :
      (x : MarketMappingEvidence)
      → str_eq (u.casefold b.snapshot.venue) (codes "lighter") ≡ false
      → Memᴰ x mappings
      → is_candidate u x b ≡ true
      → c ≡ with_mapping b x
  unfolding candidates
  bind_book_unique x venue k t =
      let (found, e, chosen) = bind_book-found in
      let (m, single, made) = choose-single u b found chosen in
      let same = ok-injective (rw venue at e) in
      let at : Memᴰ x (m ∷ []) =
        subst (Memᴰ x) (same ∙ single) (Mem-select (λ y. is_candidate u y b) x mappings k t) in
      elim (Memᴰ.cases_cons at) [
        | inl f ↦ sym made ∙ ap (with_mapping b) (sym f)
        | inr n ↦ absurd (Memᴰ.not-nil n)
      ]

-- What makes a mapping a candidate for a book
pub record IsCandidate (u : Unicode) (m : MarketMappingEvidence) (b : ReconstructedBook)
    : Type 0 where
  pub decision : m.decision ≡ approved
  pub venue : u.casefold m.venue ≡ u.casefold b.snapshot.venue
  pub symbol : m.symbol ≡ b.snapshot.symbol
  pub current : IsCurrent m b.snapshot.received_timestamp_ms

is_candidate-IsCandidate :
    (u : Unicode) (m : MarketMappingEvidence) (b : ReconstructedBook)
    → is_candidate u m b ≡ true
    → IsCandidate u m b
unfolding is_candidate
is_candidate-IsCandidate u m b h =
    let (h0, current) = both h in
    let (h1, symbol) = both h0 in
    let (decided, venue) = both h1 in
    record {
      decision = is_approved-eq m.decision decided;
      venue = (str_eq_iff (u.casefold m.venue) (u.casefold b.snapshot.venue)).0 venue;
      symbol = (str_eq_iff m.symbol b.snapshot.symbol).0 symbol;
      current = is_current-IsCurrent m b.snapshot.received_timestamp_ms current;
    }

-- Each book of the second list is the one of the first at its place, bound to a candidate.
pub data Bound (u : Unicode) (mappings : List MarketMappingEvidence)
    : List ReconstructedBook → List ReconstructedBook → Type 0 where
  none_bound : Bound u mappings [] []
  bound :
      {b : ReconstructedBook} {books cs : List ReconstructedBook} (m : MarketMappingEvidence)
      → Memᴰ m mappings
      → IsCandidate u m b
      → Bound u mappings books cs
      → Bound u mappings (b ∷ books) (with_mapping b m ∷ cs)

-- Where bind_reconstructed_books returns, its books are the given ones in their order, each with
-- the mapping and mapping_id of one of the mappings whose decision is APPROVED, whose venue is the
-- book's without regard to case, whose symbol is the book's, and whose validity, both ends
-- included, holds the time when the book was received.
pub bind_reconstructed_books-Bound :
    (u : Unicode) (books : List ReconstructedBook) (mappings : List MarketMappingEvidence)
    {cs : List ReconstructedBook}
    → bind_reconstructed_books u books mappings ≡ ok cs
    → Bound u mappings books cs
unfolding bind_reconstructed_books
bind_reconstructed_books-Bound u [] mappings h = rw (← ok-injective h) none_bound
bind_reconstructed_books-Bound u (b ∷ books) mappings {cs} h =
    let (c, one, others) = >>=-eq-ok (bind_book u mappings b) _ {last = cs} h in
    let (rest, after, made) =
      >>=-eq-ok (bind_reconstructed_books u books mappings) (λ r. ok (c ∷ r)) others in
    let (m, k, t, e) = bind_book-candidate u mappings b one in
    rw (← ok-injective made, e)
      (bound m k (is_candidate-IsCandidate u m b t)
        (bind_reconstructed_books-Bound u books mappings after))
