-- ===== src/Reconstruction/Continuity.antt =====
-- The Lighter epochs of `reconstruct_books`: what an update does to the epoch of its channel.
use liqvera.Prelude.{
  ℕ, ◌≡◌, refl, sym, ap, true, false, [], ◌∷◌, Option, none, some, Result, err, ok, arith, Ensures,
  ensured, Bool-cases, inl, inr,
}
use liqvera.Prelude.Int.{ℤ, eq_of_parts, ◌<ℤ◌}
use liqvera.Python.{Str, str_eq, str_eq_iff}
use liqvera.Market
use liqvera.Market.{OrderBookSnapshot}
use liqvera.Market.Admission.{admit-Passes}
use liqvera.Reconstruction.Lighter.{LighterUpdate, apply_lighter_update}
use liqvera.Reconstruction.Epochs.{
  Epochs, Rebuilt, epoch_at, close_epoch, set_epoch, is_gap, after_update, continue_epoch,
  same_nonce,
}

-- The snapshot that is to be appended.
abbrev pub emitted : Rebuilt → Option OrderBookSnapshot
emitted (none, epochs) = none
emitted (some (s, d), epochs) = some s

epoch_at-close : (c : Str) (epochs : Epochs) → epoch_at c (close_epoch c epochs) ≡ none
unfolding epoch_at close_epoch
epoch_at-close c [] = refl
epoch_at-close c ((d, s) ∷ epochs) = ground (arith, epoch_at-close c epochs)

str_eq_refl : (c : Str) → str_eq c c ≡ true
str_eq_refl c = (str_eq_iff c c).1 refl

epoch_at-set :
    (c : Str) (s : OrderBookSnapshot) (epochs : Epochs) → epoch_at c (set_epoch c s epochs) ≡ some s
unfolding epoch_at set_epoch
epoch_at-set c s epochs = rw (str_eq_refl c) refl

after_update-epoch_at :
    (c : Str) (epochs : Epochs) (r : Result Market.Error OrderBookSnapshot)
    → epoch_at c (after_update c epochs r).1 ≡ emitted (after_update c epochs r)
unfolding after_update
after_update-epoch_at c epochs (ok s) = epoch_at-set c s epochs
after_update-epoch_at c epochs (err e) = epoch_at-close c epochs

-- After an update the epoch of its channel is the snapshot that was emitted, and there is no epoch
-- where none was: a gap, or an update that is refused, closes it.
pub continue_epoch-epoch_at :
    (t : ℕ) (d : LighterUpdate) (epochs : Epochs)
    → epoch_at d.channel (continue_epoch t d epochs).1 ≡ emitted (continue_epoch t d epochs)
unfolding continue_epoch
continue_epoch-epoch_at t d epochs = go (epoch_at d.channel epochs) refl
  where
    go :
        (o : Option OrderBookSnapshot)
        → epoch_at d.channel epochs ≡ o
        → epoch_at d.channel (continue_epoch t d epochs).1 ≡ emitted (continue_epoch t d epochs)
    go none e = rw (continue_epoch, e) e
    go (some previous) e = elim (Bool-cases (is_gap previous d)) [
      | inl g ↦ rw (continue_epoch, e, g) (epoch_at-close d.channel epochs)
      | inr g ↦
          rw (continue_epoch, e, g)
            (after_update-epoch_at d.channel epochs (apply_lighter_update previous d t))
    ]

none-ne-some : {s : OrderBookSnapshot} → ¬ (◌≡◌ {A = Option OrderBookSnapshot} none (some s))
none-ne-some h = cc

-- Admission keeps the sequence.
admitted-sequence :
    (s : OrderBookSnapshot) → Ensures (λ t. t.sequence ≡ s.sequence) (Market.admit s)
admitted-sequence s = record { holds = λ t h. ap (λ x. x.sequence) (sym (admit-Passes s h).1) }

-- The update follows the book.
pub record Follows (previous : OrderBookSnapshot) (d : LighterUpdate) (s : OrderBookSnapshot)
    : Type 0 where
  pub begins : previous.sequence ≡ some d.begin_nonce
  pub later : d.begin_nonce <ℤ d.nonce
  pub reaches : s.sequence ≡ some d.nonce

same_nonce-true : (z : ℤ) (o : Option ℤ) → same_nonce z o ≡ true → o ≡ some z
same_nonce-true z none h = cc
same_nonce-true z (some y) h = ap some (eq_of_parts y z (ground arith))

gap-false :
    (previous : OrderBookSnapshot) (d : LighterUpdate)
    → is_gap previous d ≡ false
    → (previous.sequence ≡ some d.begin_nonce) × (d.begin_nonce <ℤ d.nonce)
unfolding is_gap
gap-false previous d h =
    (same_nonce-true d.begin_nonce previous.sequence (ground arith), ground arith)

updated-sequence :
    (previous : OrderBookSnapshot) (d : LighterUpdate) (t : ℕ)
    → Ensures (λ s. s.sequence ≡ some d.nonce) (apply_lighter_update previous d t)
unfolding apply_lighter_update
updated-sequence previous d t = search (ensured, admitted-sequence) depth 8

after_update-emitted :
    (c : Str) (epochs : Epochs) (r : Result Market.Error OrderBookSnapshot) {s : OrderBookSnapshot}
    → emitted (after_update c epochs r) ≡ some s
    → r ≡ ok s
unfolding after_update
after_update-emitted c epochs (ok x) h = cc
after_update-emitted c epochs (err e) h = cc

-- A book that an update emits continues an open epoch of its channel: the epoch's sequence is the
-- update's begin_nonce, the update's nonce lies above it, and the emitted snapshot's sequence is
-- that nonce.
pub continue_epoch-Follows :
    (t : ℕ) (d : LighterUpdate) (epochs : Epochs) {s : OrderBookSnapshot}
    → emitted (continue_epoch t d epochs) ≡ some s
    → (previous : OrderBookSnapshot) × (epoch_at d.channel epochs ≡ some previous)
      × Follows previous d s
unfolding continue_epoch
continue_epoch-Follows t d epochs {s} h = go (epoch_at d.channel epochs) refl
  where
    go :
        (o : Option OrderBookSnapshot)
        → epoch_at d.channel epochs ≡ o
        → (previous : OrderBookSnapshot) × (epoch_at d.channel epochs ≡ some previous)
          × Follows previous d s
    go none e = absurd (none-ne-some (rw (continue_epoch, e) at h))
    go (some previous) e = elim (Bool-cases (is_gap previous d)) [
      | inl g ↦ absurd (none-ne-some (rw (continue_epoch, e, g) at h))
      | inr g ↦
          let made =
            after_update-emitted d.channel epochs (apply_lighter_update previous d t)
              (rw (continue_epoch, e, g) at h) in
          let (b, l) = gap-false previous d g in
          (
            previous,
            e,
            record {
              begins = b;
              later = l;
              reaches = (updated-sequence previous d t).holds s made;
            },
          )
    ]
