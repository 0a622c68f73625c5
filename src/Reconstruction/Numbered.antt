-- ===== src/Reconstruction/Numbered.antt =====
-- The books that `reconstruct_books` returns: which snapshots they hold, and how they are numbered.
use liqvera.Prelude.{
  ℕ, suc, ◌+◌, ◌≤◌, ◌<◌, ◌≡◌, refl, sym, ap, length-append, subst, false, List, [], ◌∷◌, ◌++◌,
  Option, none, some, Result, err, ok, ok-injective, >>=-eq-ok, Ensures, ensured, err-Ensures,
  >>=-Ensures, then-Ensures, ok-Ensures, All, All-append, arith, Bool-cases, inl, inr, length,
  if-Ensures,
}
use liqvera.Python.{Unicode, Str}
use liqvera.Market
use liqvera.Market.{OrderBookSnapshot}
use liqvera.Market.Admission.{IsBook, admit-Passes, Passes-IsBook}
use liqvera.Provenance.{MarketMappingEvidence}
use liqvera.Evidence.{RawPublicEnvelope}
use liqvera.Reconstruction.Book.{ReconstructedBook, admit-eq}
use liqvera.Reconstruction.Decoding.{Loads, or_reject}
use liqvera.Reconstruction.Hyperliquid.{decode_hyperliquid_l2book}
use liqvera.Reconstruction.Lighter.{
  LighterSnapshot, LighterUpdate, Message, a_snapshot, an_update, decode_lighter_envelope,
  apply_lighter_update,
}
use liqvera.Reconstruction.Epochs.{
  Epochs, Rebuild, Rebuilt, open_epoch, symbol_of, continue_epoch, epoch_at, is_gap, after_update,
  on_message, on_envelope, append_book, rebuild_step, rebuild, started, reconstruct_books,
  is_out_of_order,
}

admit-IsBook : (s : OrderBookSnapshot) {t : OrderBookSnapshot} → Market.admit s ≡ ok t → IsBook t
admit-IsBook s h = let (p, e) = admit-Passes s h in subst IsBook e (Passes-IsBook s p)

admitted-IsBook : (s : OrderBookSnapshot) → Ensures IsBook (Market.admit s)
admitted-IsBook s = record { holds = λ t h. admit-IsBook s h }

rejected-IsBook : (s : OrderBookSnapshot) → Ensures IsBook (or_reject (Market.admit s))
rejected-IsBook s = record { holds = go (Market.admit s) refl }
  where
    go :
        (r : Result Market.Error OrderBookSnapshot)
        → Market.admit s ≡ r
        → (t : OrderBookSnapshot) → or_reject r ≡ ok t
        → IsBook t
    go (ok x) e t h = admit-IsBook s (rw (← ok-injective h) e)
    go (err x) e t h = cc

hyperliquid-IsBook :
    (u : Unicode) (loads : Loads) (payload : List ℕ) (t : ℕ)
    → Ensures IsBook (decode_hyperliquid_l2book u loads payload t)
unfolding decode_hyperliquid_l2book
hyperliquid-IsBook u loads payload t = search (ensured, rejected-IsBook) depth 24

updated-IsBook :
    (previous : OrderBookSnapshot) (d : LighterUpdate) (t : ℕ)
    → Ensures IsBook (apply_lighter_update previous d t)
unfolding apply_lighter_update
updated-IsBook previous d t = search (ensured, admitted-IsBook) depth 8

-- The snapshot to append is a book.
data Fresh : Rebuilt → Type 0 where
  nothing_new : (epochs : Epochs) → Fresh (none, epochs)
  something_new :
      (s : OrderBookSnapshot) (d : Str × Option Str) (epochs : Epochs)
      → IsBook s
      → Fresh (some (s, d), epochs)

open_epoch-Fresh :
    (u : Unicode) (mappings : List MarketMappingEvidence) (t : ℕ) (d : LighterSnapshot)
    (epochs : Epochs)
    → Ensures Fresh (open_epoch u mappings t d epochs)
unfolding open_epoch
open_epoch-Fresh u mappings t d epochs =
    >>=-Ensures (symbol_of u mappings t d) _
      (λ symbol. then-Ensures _ _ (rejected-IsBook _) (λ s k. ok-Ensures _ (something_new s _ _ k)))

after_update-Fresh :
    (previous : OrderBookSnapshot) (d : LighterUpdate) (t : ℕ) (epochs : Epochs)
    → Fresh (after_update d.channel epochs (apply_lighter_update previous d t))
unfolding after_update
after_update-Fresh previous d t epochs =
    go (apply_lighter_update previous d t) (updated-IsBook previous d t)
  where
    go :
        (r : Result Market.Error OrderBookSnapshot)
        → Ensures IsBook r
        → Fresh (after_update d.channel epochs r)
    go (ok s) k = something_new s _ _ (k.holds s refl)
    go (err e) k = nothing_new _

continue_epoch-Fresh :
    (t : ℕ) (d : LighterUpdate) (epochs : Epochs) → Fresh (continue_epoch t d epochs)
unfolding continue_epoch
continue_epoch-Fresh t d epochs = go (epoch_at d.channel epochs) refl
  where
    go :
        (o : Option OrderBookSnapshot)
        → epoch_at d.channel epochs ≡ o
        → Fresh (continue_epoch t d epochs)
    go none e = rw (continue_epoch, e) (nothing_new epochs)
    go (some previous) e = elim (Bool-cases (is_gap previous d)) [
      | inl g ↦ rw (continue_epoch, e, g) (nothing_new _)
      | inr g ↦ rw (continue_epoch, e, g) (after_update-Fresh previous d t epochs)
    ]

on_message-Fresh :
    (u : Unicode) (mappings : List MarketMappingEvidence) (t : ℕ) (m : Message) (epochs : Epochs)
    → Ensures Fresh (on_message u mappings t m epochs)
unfolding on_message
on_message-Fresh u mappings t (a_snapshot d) epochs = open_epoch-Fresh u mappings t d epochs
on_message-Fresh u mappings t (an_update d) epochs = ok-Ensures _ (continue_epoch-Fresh t d epochs)

on_envelope-Fresh :
    (u : Unicode) (loads : Loads) (mappings : List MarketMappingEvidence) (e : RawPublicEnvelope)
    (epochs : Epochs)
    → Ensures Fresh (on_envelope u loads mappings e epochs)
unfolding on_envelope
on_envelope-Fresh u loads mappings e epochs =
    if-Ensures _
      (then-Ensures _ _ (hyperliquid-IsBook u loads e.payload e.observed_at_ms)
        (λ s k. ok-Ensures _ (something_new s _ _ k)))
      (if-Ensures _
        (>>=-Ensures (decode_lighter_envelope u loads e.payload) _
          (λ m. on_message-Fresh u mappings e.observed_at_ms m epochs))
        (ok-Ensures _ (nothing_new epochs)))

-- The epoch numbers count the books from `n` on.
abbrev pub Numbered : ℕ → List ReconstructedBook → Type 0
Numbered n [] = Unit
Numbered n (b ∷ books) = (b.epoch_id ≡ n) × Numbered (suc n) books

-- The envelope indices rise strictly.
abbrev pub Increasing : List ReconstructedBook → Type 0
Increasing [] = Unit
Increasing (b ∷ books) = All (λ c. b.envelope_index < c.envelope_index) books × Increasing books

-- No book stands behind the last index.
abbrev pub Behind : Option ℕ → List ReconstructedBook → Type 0
Behind none books = books ≡ []
Behind (some p) books = All (λ b. b.envelope_index ≤ p) books

-- The invariant of the loop.
pub record Sound (s : Rebuild) : Type 0 where
  pub admitted : All (λ b. IsBook b.snapshot) s.books
  pub numbered : Numbered 0 s.books
  pub counted : s.next_epoch ≡ length s.books
  pub increasing : Increasing s.books
  pub behind : Behind s.previous_index s.books

Numbered-append :
    (n : ℕ) (books : List ReconstructedBook) (b : ReconstructedBook)
    → Numbered n books
    → b.epoch_id ≡ n + length books
    → Numbered n (books ++ b ∷ [])
Numbered-append n [] b h e = (omega (arith, e), tt)
Numbered-append n (c ∷ books) b (h, hs) e =
    (h, Numbered-append (suc n) books b hs (omega (arith, e)))

Increasing-append :
    (books : List ReconstructedBook) (b : ReconstructedBook)
    → Increasing books
    → All (λ c. c.envelope_index < b.envelope_index) books
    → Increasing (books ++ b ∷ [])
Increasing-append [] b h k = (tt, tt)
Increasing-append (c ∷ books) b (h, hs) (k, ks) = (
  All-append (λ x. c.envelope_index < x.envelope_index) books (b ∷ []) h (k, tt),
  Increasing-append books b hs ks,
)

All-lower :
    (p n : ℕ) (books : List ReconstructedBook)
    → p < n
    → All (λ b. b.envelope_index ≤ p) books
    → All (λ b. b.envelope_index < n) books
All-lower p n [] h k = tt
All-lower p n (b ∷ books) h (k, ks) = (omega arith, All-lower p n books h ks)

All-weaken :
    (n : ℕ) (books : List ReconstructedBook)
    → All (λ b. b.envelope_index < n) books
    → All (λ b. b.envelope_index ≤ n) books
All-weaken n [] k = tt
All-weaken n (b ∷ books) (k, ks) = (omega arith, All-weaken n books ks)

Behind-All :
    (o : Option ℕ) (n : ℕ) (books : List ReconstructedBook)
    → is_out_of_order o n ≡ false
    → Behind o books
    → All (λ b. b.envelope_index < n) books
Behind-All none n books h k = subst (All (λ b. b.envelope_index < n)) (sym k) tt
Behind-All (some p) n books h k = All-lower p n books (ground arith) k

append_book-Sound :
    (u : Unicode) (e : RawPublicEnvelope) (s : Rebuild) (r : Rebuilt)
    → Fresh r
    → is_out_of_order s.previous_index e.envelope_index ≡ false
    → Sound s
    → Ensures Sound (append_book u e s r)
unfolding append_book
append_book-Sound u e s r (nothing_new epochs) free v =
    let before = Behind-All s.previous_index e.envelope_index s.books free v.behind in
    ok-Ensures _ (record {
      admitted = v.admitted;
      numbered = v.numbered;
      counted = v.counted;
      increasing = v.increasing;
      behind = All-weaken e.envelope_index s.books before;
    })
append_book-Sound u e s r (something_new snapshot (decoder_id, channel) epochs good) free v =
    let before = Behind-All s.previous_index e.envelope_index s.books free v.behind in
    then-Ensures _ _ (admit-eq u _) (λ b same.
      let num : s.next_epoch ≡ b.epoch_id = ap (λ x. x.epoch_id) same in
      let place : e.envelope_index ≡ b.envelope_index = ap (λ x. x.envelope_index) same in
      ok-Ensures _ (record {
        admitted =
            All-append (λ x. IsBook x.snapshot) s.books (b ∷ []) v.admitted
              (subst (λ x. IsBook x.snapshot) same good, tt);
        numbered = Numbered-append 0 s.books b v.numbered (omega (arith, num, v.counted));
        counted = rw length-append (omega (arith, v.counted));
        increasing =
            Increasing-append s.books b v.increasing
              (subst (λ i. All (λ c. c.envelope_index < i) s.books) place before);
        behind =
            All-append (λ x. x.envelope_index ≤ e.envelope_index) s.books (b ∷ [])
              (All-weaken e.envelope_index s.books before) (omega (arith, place), tt);
      }))

rebuild_step-Sound :
    (u : Unicode) (loads : Loads) (mappings : List MarketMappingEvidence) (s : Rebuild)
    (e : RawPublicEnvelope)
    → Sound s
    → Ensures Sound (rebuild_step u loads mappings s e)
unfolding rebuild_step
rebuild_step-Sound u loads mappings s e v =
    elim (Bool-cases (is_out_of_order s.previous_index e.envelope_index)) [
      | inl out ↦ rw out (err-Ensures _)
      | inr free ↦ rw free (
          then-Ensures _ _ (on_envelope-Fresh u loads mappings e s.epochs)
            (λ r fresh. append_book-Sound u e s r fresh free v))
    ]

rebuild-Sound :
    (u : Unicode) (loads : Loads) (mappings : List MarketMappingEvidence) (s : Rebuild)
    (envelopes : List RawPublicEnvelope)
    → Sound s
    → Ensures Sound (rebuild u loads mappings s envelopes)
unfolding rebuild
rebuild-Sound u loads mappings s [] v = ok-Ensures s v
rebuild-Sound u loads mappings s (e ∷ envelopes) v =
    then-Ensures _ _ (rebuild_step-Sound u loads mappings s e v)
      (λ t w. rebuild-Sound u loads mappings t envelopes w)

started-Sound : Sound started
started-Sound = record {
  admitted = tt;
  numbered = tt;
  counted = refl;
  increasing = tt;
  behind = refl;
}

-- Where reconstruct_books returns, whatever json.loads returned, every book's snapshot is an
-- admitted book, the epoch numbers count the books from zero, and the envelope indices rise
-- strictly.
pub reconstruct_books-Numbered :
    (u : Unicode) (loads : Loads) (envelopes : List RawPublicEnvelope)
    (mappings : List MarketMappingEvidence) {books : List ReconstructedBook}
    → reconstruct_books u loads envelopes mappings ≡ ok books
    → All (λ b. IsBook b.snapshot) books × Numbered 0 books × Increasing books
unfolding reconstruct_books
reconstruct_books-Numbered u loads envelopes mappings {books} h =
    let (s, run, made) =
      >>=-eq-ok (rebuild u loads mappings started envelopes) (λ t. ok t.books) h in
    let v = (rebuild-Sound u loads mappings started envelopes started-Sound).holds s run in
    rw (← ok-injective made) (v.admitted, v.numbered, v.increasing)
