-- ===== src/Decision/Order.antt =====
-- The reasons of a decision: their order, and which of them there are.
use liqvera.Prelude.{
  ℕ, ◌<◌, ◌≡◌, refl, Bool, ◌||◌, List, [], ◌∷◌, All, ltb, ◌==◌, arith, Bool-cases, inl, inr,
}
use liqvera.Python.{any}
use liqvera.Decision.{ReasonCode, reason_index, insert_reason, ordered}

-- Strictly rising indices: sorted, and nothing twice.
abbrev pub Rising : List ReasonCode → Type 0
Rising [] = Unit
Rising (x ∷ reasons) = All (λ y. reason_index x < reason_index y) reasons × Rising reasons

-- `r in reasons`, by the index
abbrev pub mentions : ReasonCode → List ReasonCode → Bool
mentions r reasons = any (λ x. reason_index r == reason_index x) reasons

insert-All :
    (n : ℕ) (r : ReasonCode) (reasons : List ReasonCode)
    → n < reason_index r
    → All (λ y. n < reason_index y) reasons
    → All (λ y. n < reason_index y) (insert_reason r reasons)
unfolding insert_reason
insert-All n r [] h k = (h, tt)
insert-All n r (x ∷ reasons) h (k, ks) = ground (arith, insert-All n r reasons h ks)

All-above :
    (a b : ℕ) (reasons : List ReasonCode)
    → a < b
    → All (λ y. b < reason_index y) reasons
    → All (λ y. a < reason_index y) reasons
All-above a b [] h k = tt
All-above a b (x ∷ reasons) h (k, ks) = (omega arith, All-above a b reasons h ks)

insert-Rising :
    (r : ReasonCode) (reasons : List ReasonCode) → Rising reasons → Rising (insert_reason r reasons)
unfolding insert_reason
insert-Rising r [] h = (tt, tt)
insert-Rising r (x ∷ reasons) (k, ks) = elim (Bool-cases (ltb (reason_index r) (reason_index x))) [
  | inl e ↦ rw e (
      let l : reason_index r < reason_index x = ground arith in
      ((l, All-above _ _ reasons l k), (k, ks)))
  | inr e ↦ rw e (elim (Bool-cases (reason_index r == reason_index x)) [
    | inl f ↦ rw f (k, ks)
    | inr f ↦
        rw f (insert-All (reason_index x) r reasons (ground arith) k, insert-Rising r reasons ks)
  ])
]

-- The reasons of a document stand in the order of their codes, none of them twice.
pub ordered-Rising : (reasons : List ReasonCode) → Rising (ordered reasons)
unfolding ordered
ordered-Rising [] = tt
ordered-Rising (r ∷ reasons) = insert-Rising r (ordered reasons) (ordered-Rising reasons)

mentions-insert :
    (q r : ReasonCode) (reasons : List ReasonCode)
    → mentions q (insert_reason r reasons)
      ≡ (reason_index q == reason_index r || mentions q reasons)
unfolding insert_reason
mentions-insert q r [] = ground arith
mentions-insert q r (x ∷ reasons) = ground (arith, mentions-insert q r reasons)

-- Sorting the reasons loses none and adds none.
pub mentions-ordered :
    (q : ReasonCode) (reasons : List ReasonCode) → mentions q (ordered reasons) ≡ mentions q reasons
unfolding ordered
mentions-ordered q [] = refl
mentions-ordered q (r ∷ reasons) =
    ground (arith, mentions-insert q r (ordered reasons), mentions-ordered q reasons)
