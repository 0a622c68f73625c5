-- ===== src/Evaluate/Sealing.antt =====
-- The sealed economics that `evaluate_frozen_package` reads, or what its last handler makes of them.
use liqvera.Prelude.{
  ◌≡◌, refl, ap, ℕ, List, true, false, Option, none, some, Result, ok, err, ◌>>=◌, >>=-eq-ok,
  ok-injective, Bool-cases, inl, inr,
}
use liqvera.Python.{
  Raised, type_error, value_error, decode_error, key_error, overflow_error, invalid_operation,
  os_error, recursion_error, codes,
}
use liqvera.Json.{Json, member_of}
use liqvera.Economics.{SealedStageAEconomics, from_document}
use liqvera.Package
use liqvera.Package.{Platform, frozen, raised, record_invalid, read_bytes, loads_decoded}
use liqvera.Package.Reader.{Reader, paths}
use liqvera.Package.Records.{optional_member_bytes}
use liqvera.Evaluate.{or_economics, decode_economics, read_economics}

-- The economics of the declared member, and none where the member is not declared
pub data IsSealed (p : Platform) (reader : Reader) : Option SealedStageAEconomics → Type 0 where
  undeclared :
      member_of (codes "economics.json") (paths reader.declared) ≡ false → IsSealed p reader none
  sealed :
      {bytes : List ℕ} {document : Json} {economics : SealedStageAEconomics}
      → member_of (codes "economics.json") (paths reader.declared) ≡ true
      → read_bytes (codes "economics.json") reader.tree ≡ ok bytes
      → loads_decoded p (p.decode_utf8 bytes) ≡ ok document
      → from_document p.unicode document ≡ ok economics
      → IsSealed p reader (some economics)

-- What the handler makes of an exception
pub data IsHandled : Raised → Package.Error → Type 0 where
  of_type : IsHandled type_error (frozen record_invalid)
  of_value : IsHandled value_error (frozen record_invalid)
  of_decoding : IsHandled decode_error (frozen record_invalid)
  of_key : IsHandled key_error (raised key_error)
  of_overflow : IsHandled overflow_error (raised overflow_error)
  of_operation : IsHandled invalid_operation (raised invalid_operation)
  of_system : IsHandled os_error (raised os_error)
  of_recursion : IsHandled recursion_error (raised recursion_error)

-- The member is declared, but cannot be read or decoded.
pub data IsUnsealed (p : Platform) (reader : Reader) : Package.Error → Type 0 where
  unread :
      {e : Package.Error}
      → member_of (codes "economics.json") (paths reader.declared) ≡ true
      → read_bytes (codes "economics.json") reader.tree ≡ err e
      → IsUnsealed p reader e
  undecoded :
      {bytes : List ℕ} {x : Raised} {e : Package.Error}
      → member_of (codes "economics.json") (paths reader.declared) ≡ true
      → read_bytes (codes "economics.json") reader.tree ≡ ok bytes
      → (loads_decoded p (p.decode_utf8 bytes) >>= from_document p.unicode) ≡ err x
      → IsHandled x e
      → IsUnsealed p reader e

or_economics-ok : {A : Type 0} (r : Result Raised A) {a : A} → or_economics r ≡ ok a → r ≡ ok a
or_economics-ok (ok x) h = let k = ok-injective h in ap (λ y. ok y) k
or_economics-ok (err type_error) h = cc
or_economics-ok (err value_error) h = cc
or_economics-ok (err decode_error) h = cc
or_economics-ok (err key_error) h = cc
or_economics-ok (err overflow_error) h = cc
or_economics-ok (err invalid_operation) h = cc
or_economics-ok (err os_error) h = cc
or_economics-ok (err recursion_error) h = cc

handled :
    {A : Type 0} (P : Result Package.Error A → Type 0) (r : Result Raised A)
    → ((a : A) → r ≡ ok a → P (ok a))
    → ((x : Raised) (e : Package.Error) → r ≡ err x → IsHandled x e → P (err e))
    → P (or_economics r)
handled P (ok a) well badly = well a refl
handled P (err type_error) well badly = badly _ _ refl of_type
handled P (err value_error) well badly = badly _ _ refl of_value
handled P (err decode_error) well badly = badly _ _ refl of_decoding
handled P (err key_error) well badly = badly _ _ refl of_key
handled P (err overflow_error) well badly = badly _ _ refl of_overflow
handled P (err invalid_operation) well badly = badly _ _ refl of_operation
handled P (err os_error) well badly = badly _ _ refl of_system
handled P (err recursion_error) well badly = badly _ _ refl of_recursion

-- Every outcome of the read
pub data Reads (p : Platform) (reader : Reader)
    : Result Package.Error (Option SealedStageAEconomics) → Type 0 where
  well : {o : Option SealedStageAEconomics} → IsSealed p reader o → Reads p reader (ok o)
  badly : {e : Package.Error} → IsUnsealed p reader e → Reads p reader (err e)

pub read_economics-Reads :
    (p : Platform) (reader : Reader) → Reads p reader (read_economics p reader)
unfolding read_economics optional_member_bytes decode_economics
read_economics-Reads p reader =
    elim (Bool-cases (member_of (codes "economics.json") (paths reader.declared))) [
      | inl e ↦ rw e (of_bytes e (read_bytes (codes "economics.json") reader.tree) refl)
      | inr e ↦ rw e (well (undeclared e))
    ]
  where
    of_bytes :
        member_of (codes "economics.json") (paths reader.declared) ≡ true
        → (r : Result Package.Error (List ℕ)) → read_bytes (codes "economics.json") reader.tree ≡ r
        → Reads p reader (
            (r >>= λ bytes. ok (some bytes)) >>= λ raw. elim raw [
              | none ↦ ok none
              | some bytes ↦
                  or_economics (loads_decoded p (p.decode_utf8 bytes) >>= from_document p.unicode)
                  >>= λ economics. ok (some economics)
            ])
    of_bytes e (err x) k = badly (unread e k)
    of_bytes e (ok bytes) k =
        handled (λ r. Reads p reader (r >>= λ economics. ok (some economics)))
          (loads_decoded p (p.decode_utf8 bytes) >>= from_document p.unicode)
          (λ economics d.
            (let (document, loaded, made) =
                >>=-eq-ok (loads_decoded p (p.decode_utf8 bytes)) (from_document p.unicode)
                  {last = economics} d in
              well (sealed e k loaded made)))
          (λ x y d h. badly (undecoded e k d h))
