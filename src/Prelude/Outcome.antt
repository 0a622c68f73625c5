-- ===== src/Prelude/Outcome.antt =====
-- A call that returns or raises.
use mathlib.Core.Path.{◌≡◌, refl, subst}
use mathlib.Core.Bool.{Bool, true, false, not}
use liqvera.Prelude.Tests.{if◌then◌else◌}

-- `E` names the exceptions.
pub data Result {ℓ} (E : Type 0) (A : Type ℓ) : Type ℓ where
  ok : A → Result E A
  err : E → Result E A

infixl 5 ◌>>=◌ ◌>>◌
abbrev pub ◌>>=◌ {ℓ κ} :
    {E : Type 0} {A : Type ℓ} {B : Type κ} → Result E A → (A → Result E B) → Result E B
err e >>= next = err e
ok a >>= next = next a

abbrev pub ◌>>◌ {κ} : {E : Type 0} {B : Type κ} → Result E (Unit {0}) → Result E B → Result E B
first >> second = first >>= λ _. second

-- `if test: raise e`
abbrev pub raise_if : {E : Type 0} → Bool → E → Result E (Unit {0})
raise_if true e = err e
raise_if false e = ok tt

-- A `do` block that returned went through its first step.
pub >>=-eq-ok {ℓ κ} :
    {E : Type 0} {A : Type ℓ} {B : Type κ} (first : Result E A) (next : A → Result E B) {last : B}
    → (first >>= next) ≡ ok last
    → (mid : A) × (first ≡ ok mid) × (next mid ≡ ok last)
>>=-eq-ok (ok mid) next returned = (mid, refl, returned)
>>=-eq-ok (err e) next returned = cc

pub ok-injective {ℓ} :
    {E : Type 0} {A : Type ℓ} {a b : A} → ◌≡◌ {A = Result E A} (ok a) (ok b) → a ≡ b
ok-injective h = cc

pub ok-ne-err {ℓ} :
    {E : Type 0} {A : Type ℓ} {a : A} {e : E} → ¬ (◌≡◌ {A = Result E A} (ok a) (err e))
ok-ne-err h = cc

-- A test that was passed.
pub passed : {E : Type 0} (b : Bool) (e : E) → raise_if (not b) e ≡ ok tt → b ≡ true
passed true e h = refl
passed false e h = cc

pub not_raised : {E : Type 0} (b : Bool) (e : E) → raise_if b e ≡ ok tt → b ≡ false
not_raised true e h = cc
not_raised false e h = refl

-- Whatever the call returns satisfies `P`.
pub record Ensures {ℓ} {E : Type 0} {A : Type ℓ} (P : A → Type 0) (r : Result E A) : Type ℓ where
  pub holds : (a : A) → r ≡ ok a → P a

module _ {ℓ} {E : Type 0} {A : Type ℓ} {P : A → Type 0} where
  pub err-Ensures : (e : E) → Ensures P (err e)
  err-Ensures e = record { holds = λ a h. cc }

  pub if-Ensures :
      (b : Bool) {m n : Result E A} → Ensures P m → Ensures P n → Ensures P (if b then m else n)
  if-Ensures true p q = p
  if-Ensures false p q = q

module _ {ℓ κ} {E : Type 0} {A : Type ℓ} {B : Type κ} {P : B → Type 0} where
  pub >>=-Ensures :
      (m : Result E A) (f : A → Result E B) → ((a : A) → Ensures P (f a)) → Ensures P (m >>= f)
  >>=-Ensures (ok a) f h = h a
  >>=-Ensures (err e) f h = record { holds = λ b q. cc }

-- A step that uses what the first one ensures.
pub then-Ensures {ℓ κ} :
    {E : Type 0} {A : Type ℓ} {B : Type κ} {P : A → Type 0} {Q : B → Type 0} (first : Result E A)
    (next : A → Result E B)
    → Ensures P first
    → ((mid : A) → P mid → Ensures Q (next mid))
    → Ensures Q (first >>= next)
then-Ensures (ok mid) next p q = q mid (p.holds mid refl)
then-Ensures (err e) next p q = record { holds = λ b h. cc }

pub ok-Ensures {ℓ} :
    {E : Type 0} {A : Type ℓ} {P : A → Type 0} (a : A) → P a → Ensures {E = E} P (ok a)
ok-Ensures {P = P} a p = record { holds = λ b h. subst P (ok-injective h) p }

pub ruleset ensured = (err-Ensures, if-Ensures, >>=-Ensures)

-- A branch that returned is not the one that raises.
pub else-ok {ℓ} :
    {E : Type 0} {A : Type ℓ} (b : Bool) (e : E) {m : Result E A} {a : A}
    → (if b then err e else m) ≡ ok a
    → m ≡ ok a
else-ok true e h = cc
else-ok false e h = h
