-- ===== src/Mezo/Reported.antt =====
-- What the report of a borrower says, and that the walk does not run out of fuel.
use liqvera.Prelude.{
  ℕ, zero, suc, ◌<◌, ◌≡◌, refl, sym, ap, subst, true, not, List, [], ◌∷◌, Option, none, ok,
  ok-injective, length, arith, Bool-cases, inl, inr, passed, both, ◌&&◌, ◌||◌, ◌==◌,
}
use liqvera.Prelude.Action.{call-eq-ok, >>=-returned, >>=-same}
use liqvera.Python.{Str, value_error, str_eq, str_eq_iff}
use liqvera.Json.{Json, member_of}
use liqvera.Mezo.{Texts, require, Calls}
use liqvera.Mezo.Troves.{nobody, Used}
use liqvera.Mezo.Queue.{
  Walk, remove_owner, round, walk, Report, concluded, distinct, read_owners, require_all_used,
  read_queue, no_one,
}
use liqvera.Mezo.Walked.{Node, Placed}
use liqvera.Mezo.Redeemed.{
  str_ne_sym, IsRound, round-IsRound, occurrences, names, Gives, Chain, walk-IsWalked,
  empty-IsWalked, whole_queue, tally-fields,
}

-- What the report is about: the queue from its last trove to its first, in which each owner of the
-- contract's list stands once, and the borrower's place in it.
pub record IsReported (t : Texts) (calls : Calls Json) (borrower first last : Str)
    (r report : Report) : Type 0 where
  pub owners : List Str
  pub listed : Gives (read_owners t calls r.sorted_troves_size 0) owners
  pub each_once : distinct owners ≡ true
  pub queue : List Node
  pub chain : Chain t calls r.price r.gas_compensation last queue first nobody
  pub whole : (owner : Str) → occurrences owner (names queue) ≡ occurrences owner owners
  pub place : Option (ℕ × ℕ × ℕ)
  pub placed : Placed r.mcr r.gas_compensation borrower queue place
  pub conclusion : report ≡ concluded r place

no_one-nil : (owners : List Str) → no_one owners ≡ true → owners ≡ []
no_one-nil [] h = refl
no_one-nil (o ∷ owners) h = cc

-- Where the queue of an observation of the Troves is accepted, there is a list of troves, from the
-- last one of the sorted list to its first, in which each owner of the contract's list stands
-- exactly once, each trove is active, and each is linked to the one before it and the one behind
-- it. The place that is found is the borrower's in that list: its rank among the troves whose
-- ratio is not below the minimum, the debt before it and the debt without the gas compensations
-- before it; where none is found, the borrower has no such trove there. The report draws its
-- status and its place from that alone.
pub read_queue-IsReported :
    (t : Texts) (calls : Calls Json) (borrower first last : Str) (r : Report) (u : Used)
    {used : Used} {report : Report}
    → read_queue t calls borrower first last r u ≡ (used, ok report)
    → IsReported t calls borrower first last r report
unfolding read_queue require_all_used
read_queue-IsReported t calls borrower first last r u {used} {report} h =
    let (owners, u1, listed, h0) =
      >>=-returned (read_owners t calls r.sorted_troves_size 0) _ u {t = used} {b = report} h in
    let (d0, each, h1) =
      call-eq-ok (require (distinct owners && not (member_of nobody owners))) _ u1 {t = used}
        {b = report} h0 in
    let (d1, known, h2) =
      call-eq-ok
        (require (
          (member_of borrower owners && r.target.status == 1)
          || (not (member_of borrower owners) && not (r.target.status == 1))))
        _ u1 {t = used} {b = report} h1 in
    let start : Walk = record {
      unseen = owners;
      previous = nobody;
      current = last;
      rank = 0;
      debt_ahead = 0;
      net_ahead = 0;
      place = none;
    } in
    let (w, u2, walked, h3) =
      >>=-returned
        (walk t calls r.price r.mcr r.gas_compensation borrower (suc (length owners)) start) _ u1
        {t = used} {b = report} h2 in
    let (d2, closed, h4) =
      call-eq-ok (require (no_one w.unseen && str_eq w.previous first)) _ u2 {t = used} {b = report}
        h3 in
    let (d3, u3, all_of_them, h5) =
      >>=-returned (require_all_used t calls) _ u2 {t = used} {b = report} h4 in
    let (queue, is_walked, ended) =
      walk-IsWalked t calls r.price r.mcr r.gas_compensation borrower owners last
        (suc (length owners)) [] start u1
        (empty-IsWalked t calls r.price r.mcr r.gas_compensation borrower owners last) walked in
    let (empty, ends) =
      both (passed (no_one w.unseen && str_eq w.previous first) value_error closed) in
    record {
      owners = owners;
      listed = record { before = u; after = u1; given = listed };
      each_once =
          (both (passed (distinct owners && not (member_of nobody owners)) value_error each)).0;
      queue = queue;
      chain =
          subst (λ x. Chain t calls r.price r.gas_compensation last queue x nobody)
            ((str_eq_iff w.previous first).0 ends)
            (subst (λ x. Chain t calls r.price r.gas_compensation last queue w.previous x) ended
              is_walked.chain);
      whole =
          whole_queue t calls r.price r.mcr r.gas_compensation borrower owners last queue w
            is_walked (no_one-nil w.unseen empty);
      place = w.place;
      placed = is_walked.tallied.place;
      conclusion = sym (ok-injective (ap (λ x. x.1) h5));
    }

length-remove_owner :
    (x : Str) (owners : List Str)
    → member_of x owners ≡ true
    → suc (length (remove_owner x owners)) ≡ length owners
unfolding remove_owner
length-remove_owner x [] h = cc
length-remove_owner x (o ∷ owners) h = elim (Bool-cases (str_eq o x)) [
  | inl e ↦ rw e refl
  | inr e ↦ rw e (ap suc (length-remove_owner x owners (rw (str_ne_sym o x e) at h)))
]

round-length :
    (t : Texts) (calls : Calls Json) (price mcr gas : ℕ) (borrower : Str) (w behind : Walk)
    → IsRound t calls price mcr gas borrower w behind
    → length behind.unseen < length w.unseen
round-length t calls price mcr gas borrower w behind r =
    let (same_unseen, same_current) = tally-fields mcr gas borrower r.node w in
    let k = length-remove_owner w.current w.unseen r.fresh in
    subst (λ (x : Walk). length x.unseen < length w.unseen) r.made
      (rw (same_unseen, same_current) (omega (arith, k)))

-- With more fuel than there are owners that were not seen, the walk along the sorted Troves does
-- not depend on the fuel: a round that returns takes an owner off the unseen ones.
pub walk-enough :
    (t : Texts) (calls : Calls Json) (price mcr gas : ℕ) (borrower : Str) (f g : ℕ) (w : Walk)
    (u : Used)
    → length w.unseen < f
    → length w.unseen < g
    → walk t calls price mcr gas borrower f w u ≡ walk t calls price mcr gas borrower g w u
unfolding walk
walk-enough t calls price mcr gas borrower zero g w u hf hg = absurd (omega arith)
walk-enough t calls price mcr gas borrower (suc f) zero w u hf hg = absurd (omega arith)
walk-enough t calls price mcr gas borrower (suc f) (suc g) w u hf hg =
    elim (Bool-cases (str_eq w.current nobody)) [
      | inl e ↦ rw e refl
      | inr e ↦ rw e (
          >>=-same (round t calls price mcr gas borrower w) (walk t calls price mcr gas borrower f)
            (walk t calls price mcr gas borrower g) u
            (λ mid v first.
              (let shorter =
                  round-length t calls price mcr gas borrower w mid
                    (round-IsRound t calls price mcr gas borrower w u first) in
                walk-enough t calls price mcr gas borrower f g mid v (omega (arith, hf, shorter))
                  (omega (arith, hg, shorter)))))
    ]
