-- ===== src/Provenance/Current.antt =====
-- What the tests of a mapping's decision and validity, and of two numbers, tell of them.
use liqvera.Prelude.{ℕ, ◌^◌, ◌≡◌, refl, subst, true, Option, none, some, both, arith}
use liqvera.Prelude.Int.{ℤ, pos, negsuc, ◌*ℤ◌, leb_ℤ, eqb_ℤ, ◌≤ℤ◌}
use liqvera.Decimal.{Decimal, Number, finite, infinity, minus_infinity, nan, eq}
use liqvera.Provenance.{
  MappingDecision, approved, rejected, MarketMappingEvidence, is_approved, is_current,
}
use liqvera.Provenance.Pairs.{same_number, same_optional_number, same_optional_count}

-- The time lies in the validity interval, both ends included.
pub record IsCurrent (m : MarketMappingEvidence) (t : ℤ) : Type 0 where
  pub since : pos m.valid_from_ms ≤ℤ t
  pub until : (v : ℕ) → m.valid_until_ms ≡ some v → t ≤ℤ pos v

-- The number is finite and has the decimal's value.
pub record IsNumber (d : Decimal) (x : Number) : Type 0 where
  pub other : Decimal
  pub is_finite : x ≡ finite other
  pub value : d.coefficient *ℤ pos (10 ^ other.places) ≡ other.coefficient *ℤ pos (10 ^ d.places)

-- Both are given, and equal in value, or neither is.
pub data IsOptionalNumber : Option Decimal → Option Number → Type 0 where
  no_number : IsOptionalNumber none none
  a_number : {d : Decimal} {x : Number} → IsNumber d x → IsOptionalNumber (some d) (some x)

pub data IsOptionalCount : Option ℕ → Option ℤ → Type 0 where
  no_count : IsOptionalCount none none
  a_count : {n : ℕ} → IsOptionalCount (some n) (some (pos n))

pub is_approved-eq : (d : MappingDecision) → is_approved d ≡ true → d ≡ approved
is_approved-eq approved h = refl
is_approved-eq rejected h = cc

pub leb_ℤ-le : (a b : ℤ) → leb_ℤ a b ≡ true → a ≤ℤ b
leb_ℤ-le a b h = ground arith

until-le :
    (t : ℤ) (o : Option ℕ)
    → elim o [ none ↦ true | some v ↦ leb_ℤ t (pos v) ] ≡ true
    → (v : ℕ) → o ≡ some v
    → t ≤ℤ pos v
until-le t none h v e = cc
until-le t (some w) h v e =
    let same : w ≡ v = cc in subst (λ x. t ≤ℤ pos x) same (leb_ℤ-le t (pos w) h)

pub is_current-IsCurrent :
    (m : MarketMappingEvidence) (t : ℤ) → is_current m t ≡ true → IsCurrent m t
unfolding is_current
is_current-IsCurrent m t h =
    let (since, until) = both h in
    record {
      since = leb_ℤ-le (pos m.valid_from_ms) t since;
      until = until-le t m.valid_until_ms until;
    }

eqb_ℤ-eq : (a b : ℤ) → eqb_ℤ a b ≡ true → a ≡ b
eqb_ℤ-eq a b h = ground arith

pub same_number-IsNumber : (d : Decimal) (x : Number) → same_number d x ≡ true → IsNumber d x
unfolding same_number eq
same_number-IsNumber d (finite e) h = record { other = e; is_finite = refl; value = eqb_ℤ-eq _ _ h }
same_number-IsNumber d infinity h = cc
same_number-IsNumber d minus_infinity h = cc
same_number-IsNumber d nan h = cc

pub same_optional_number-IsOptionalNumber :
    (d : Option Decimal) (x : Option Number)
    → same_optional_number d x ≡ true
    → IsOptionalNumber d x
unfolding same_optional_number
same_optional_number-IsOptionalNumber none none h = no_number
same_optional_number-IsOptionalNumber (some d) (some x) h = a_number (same_number-IsNumber d x h)
same_optional_number-IsOptionalNumber none (some x) h = cc
same_optional_number-IsOptionalNumber (some d) none h = cc

pub same_optional_count-IsOptionalCount :
    (n : Option ℕ) (x : Option ℤ) → same_optional_count n x ≡ true → IsOptionalCount n x
unfolding same_optional_count
same_optional_count-IsOptionalCount none none h = no_count
same_optional_count-IsOptionalCount (some n) (some (pos k)) h =
    let same : n ≡ k = ground arith in
    subst (λ j. IsOptionalCount (some n) (some (pos j))) same a_count
same_optional_count-IsOptionalCount (some n) (some (negsuc k)) h = cc
same_optional_count-IsOptionalCount none (some x) h = cc
same_optional_count-IsOptionalCount (some n) none h = cc
