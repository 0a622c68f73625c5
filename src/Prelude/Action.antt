-- ===== src/Prelude/Action.antt =====
-- A method that changes the object and returns or raises: what it changed before it raised stays.
use mathlib.Core.Path.{◌≡◌, refl, ap}
use mathlib.Core.Bool.{Bool, true, false}
use liqvera.Prelude.Tests.{if◌then◌else◌}
use liqvera.Prelude.Outcome.{Result, ok, err}

-- `S` is the object.
abbrev pub Action : Type 0 → Type 0 → Type 0 → Type 0
Action S E A = S → S × Result E A

abbrev pub after : {S E A B : Type 0} → (A → Action S E B) → S × Result E A → S × Result E B
after next (s, ok a) = next a s
after next (s, err e) = (s, err e)

infixl 5 ◌>>=◌ ◌>>◌
unfoldable pub ◌>>=◌ : {S E A B : Type 0} → Action S E A → (A → Action S E B) → Action S E B
◌>>=◌ first next s = after next (first s)

abbrev pub ◌>>◌ : {S E B : Type 0} → Action S E (Unit {0}) → Action S E B → Action S E B
first >> second = first >>= λ _. second

abbrev pub return : {S E A : Type 0} → A → Action S E A
return a s = (s, ok a)

-- A call that does not touch the object.
abbrev pub call : {S E A : Type 0} → Result E A → Action S E A
call r s = (s, r)

abbrev pub self : {S E : Type 0} → Action S E S
self s = (s, ok s)

abbrev pub modify : {S E : Type 0} → (S → S) → Action S E (Unit {0})
modify f s = (f s, ok tt)

-- What holds of the object and the outcome.
pub record Leads {S E A : Type 0} (Q : S → Result E A → Type 0) (x : S × Result E A) : Type 0 where
  pub holds : Q x.0 x.1

module _ {S E A B : Type 0} {Q : S → Result E B → Type 0}
    (raising : (s : S) (e : E) → Q s (err e)) where
  pub >>=-Leads :
      (first : Action S E A) (next : A → Action S E B) (s : S)
      → ((a : A) (t : S) → Leads Q (next a t))
      → Leads Q ((first >>= next) s)
  unfolding ◌>>=◌
  >>=-Leads first next s h = go (first s)
    where
      go : (x : S × Result E A) → Leads Q (after next x)
      go (t, ok a) = h a t
      go (t, err e) = record { holds = raising t e }

  -- The object is the same behind a call.
  pub call-Leads :
      (r : Result E A) (next : A → Action S E B) (s : S)
      → ((a : A) → Leads Q (next a s))
      → Leads Q ((call r >>= next) s)
  unfolding ◌>>=◌
  call-Leads (ok a) next s h = h a
  call-Leads (err e) next s h = record { holds = raising s e }

module _ {S E B : Type 0} {Q : S → Result E B → Type 0} where
  pub modify-Leads :
      (f : S → S) (rest : Action S E B) (s : S)
      → Leads Q (rest (f s))
      → Leads Q ((modify f >> rest) s)
  unfolding ◌>>=◌
  modify-Leads f rest s h = h

  pub self-Leads :
      (next : S → Action S E B) (s : S) → Leads Q (next s s) → Leads Q ((self >>= next) s)
  unfolding ◌>>=◌
  self-Leads next s h = h

-- A method that returned went through its first call.
pub call-eq-ok :
    {S E A B : Type 0} (r : Result E A) (next : A → Action S E B) (s : S) {t : S} {b : B}
    → (call r >>= next) s ≡ (t, ok b)
    → (a : A) × (r ≡ ok a) × (next a s ≡ (t, ok b))
unfolding ◌>>=◌
call-eq-ok (ok a) next s h = (a, refl, h)
call-eq-ok (err e) next s h = let k = ap (λ x. x.1) h in cc

pub self-eq-ok :
    {S E B : Type 0} (next : S → Action S E B) (s : S) {t : S} {b : B}
    → (self >>= next) s ≡ (t, ok b)
    → next s s ≡ (t, ok b)
unfolding ◌>>=◌
self-eq-ok next s h = h

pub modify-eq :
    {S E B : Type 0} (f : S → S) (rest : Action S E B) (s : S) → (modify f >> rest) s ≡ rest (f s)
unfolding ◌>>=◌
modify-eq f rest s = refl

pub if-Leads :
    {S E A : Type 0} {Q : S → Result E A → Type 0} (b : Bool) (m n : Action S E A) (s : S)
    → (b ≡ true → Leads Q (m s))
    → (b ≡ false → Leads Q (n s))
    → Leads Q ((if b then m else n) s)
if-Leads true m n s h k = h refl
if-Leads false m n s h k = k refl

-- A method goes on where its first step left the object.
pub >>=-step :
    {S E A B : Type 0} (first : Action S E A) (next : A → Action S E B) (s : S) {t : S} {a : A}
    → first s ≡ (t, ok a)
    → (first >>= next) s ≡ next a t
unfolding ◌>>=◌
>>=-step first next s h = ap (after next) h

pub >>=-call :
    {S E A B : Type 0} (r : Result E A) (next : A → Action S E B) (s : S) {a : A}
    → r ≡ ok a
    → (call r >>= next) s ≡ next a s
>>=-call r next s h = >>=-step (call r) next s (ap (λ x. (s, x)) h)

-- A method keeps a property of the object, whether it returns or raises.
pub record Keeps {S E A : Type 0} (I : S → Type 0) (action : Action S E A) : Type 0 where
  pub keeps : (s : S) → I s → I (action s).0

module _ {S E : Type 0} {I : S → Type 0} where
  pub >>=-Keeps :
      {A B : Type 0} (first : Action S E A) (next : A → Action S E B)
      → Keeps I first
      → ((a : A) → Keeps I (next a))
      → Keeps I (first >>= next)
  unfolding ◌>>=◌
  >>=-Keeps {A} {B} first next p q = record { keeps = λ s i. go (first s) (p.keeps s i) }
    where
      go : (x : S × Result E A) → I x.0 → I (after next x).0
      go (t, ok a) i = (q a).keeps t i
      go (t, err e) i = i

  pub call-Keeps : {A : Type 0} (r : Result E A) → Keeps I (call r)
  call-Keeps r = record { keeps = λ s i. i }

  pub return-Keeps : {A : Type 0} (a : A) → Keeps {E = E} I (return a)
  return-Keeps a = record { keeps = λ s i. i }

  pub self-Keeps : Keeps {E = E} I self
  self-Keeps = record { keeps = λ s i. i }

  pub modify-Keeps : (f : S → S) → ((s : S) → I s → I (f s)) → Keeps {E = E} I (modify f)
  modify-Keeps f k = record { keeps = k }

  pub if-Keeps :
      {A : Type 0} (b : Bool) {m n : Action S E A}
      → Keeps I m
      → Keeps I n
      → Keeps I (if b then m else n)
  if-Keeps true p q = p
  if-Keeps false p q = q

pub ruleset keeping = (>>=-Keeps, call-Keeps, return-Keeps, self-Keeps, if-Keeps)

-- A method that returned went through its first step.
pub >>=-returned :
    {S E A B : Type 0} (first : Action S E A) (next : A → Action S E B) (s : S) {t : S} {b : B}
    → (first >>= next) s ≡ (t, ok b)
    → (mid : A) × (u : S) × (first s ≡ (u, ok mid)) × (next mid u ≡ (t, ok b))
unfolding ◌>>=◌
>>=-returned {S} {E} {A} {B} first next s {t} {b} h = go (first s) h
  where
    go :
        (x : S × Result E A)
        → after next x ≡ (t, ok b)
        → (mid : A) × (u : S) × (x ≡ (u, ok mid)) × (next mid u ≡ (t, ok b))
    go (u, ok mid) h = (mid, u, refl, h)
    go (u, err e) h = let k = ap (λ y. y.1) h in cc

-- Two ways on that agree wherever the first step returned
pub >>=-same :
    {S E A B : Type 0} (first : Action S E A) (f g : A → Action S E B) (s : S)
    → ((a : A) (t : S) → first s ≡ (t, ok a) → f a t ≡ g a t)
    → (first >>= f) s ≡ (first >>= g) s
unfolding ◌>>=◌
>>=-same {S} {E} {A} {B} first f g s h = go (first s) h
  where
    go :
        (x : S × Result E A)
        → ((a : A) (t : S) → x ≡ (t, ok a) → f a t ≡ g a t)
        → after f x ≡ after g x
    go (t, ok a) h = h a t refl
    go (t, err e) h = refl
