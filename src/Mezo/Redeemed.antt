-- ===== src/Mezo/Redeemed.antt =====
-- The walk goes through every owner once, along the links.
use liqvera.Prelude.{
  ℕ, zero, suc, ◌+◌, ◌≡◌, refl, sym, ap, subst, true, false, List, [], ◌∷◌, ◌++◌, map, none, ok,
  ok-injective, leb, ◌==◌, arith, Bool-cases, inl, inr, passed, ==_iff, if◌then◌else◌,
}
use liqvera.Prelude.Action.{call-eq-ok, >>=-returned}
use liqvera.Python.{Str, value_error, codes, str_eq, str_eq_iff}
use liqvera.Json.{Json, member_of}
use liqvera.Mezo.{Texts, require, Calls, address_word}
use liqvera.Mezo.Troves.{sorted_troves, nobody, Trove, Used, Reading, address, trove}
use liqvera.Mezo.Queue.{Walk, remove_owner, tally, move_on, round, walk}
use liqvera.Mezo.Walked.{Node, IsTallied, tally-IsTallied, empty-IsTallied}

-- How often the owner stands there
pub occurrences : Str → List Str → ℕ
occurrences owner [] = 0
occurrences owner (o ∷ owners) =
    let rest = occurrences owner owners in if str_eq o owner then suc rest else rest

abbrev pub names : List Node → List Str
names queue = map (λ (n : Node). n.0) queue

abbrev once : Str → Str → ℕ
once o owner = if str_eq o owner then 1 else 0

pub str_ne_sym : (a b : Str) → str_eq a b ≡ false → str_eq b a ≡ false
str_ne_sym a b h = elim (Bool-cases (str_eq b a)) [
  | inl e ↦ let k = (str_eq_iff a b).1 (sym ((str_eq_iff b a).0 e)) in cc
  | inr e ↦ e
]

pub occurrences-remove_owner :
    (owner x : Str) (owners : List Str)
    → member_of x owners ≡ true
    → occurrences owner owners ≡ occurrences owner (remove_owner x owners) + once x owner
unfolding occurrences remove_owner
occurrences-remove_owner owner x [] h = cc
occurrences-remove_owner owner x (o ∷ owners) h = elim (Bool-cases (str_eq o x)) [
  | inl e ↦ rw e (let same = (str_eq_iff o x).0 e in rw same (ground arith))
  | inr e ↦
      let other = str_ne_sym o x e in
      let later = occurrences-remove_owner owner x owners (rw other at h) in
      rw e (ground (arith, later))
]

occurrences-snoc :
    (owner : Str) (queue : List Node) (o : Str) (v : Trove)
    → occurrences owner (names (queue ++ (o, v) ∷ []))
      ≡ occurrences owner (names queue) + once o owner
unfolding occurrences
occurrences-snoc owner [] o v = ground arith
occurrences-snoc owner ((p, w) ∷ queue) o v =
    let k = occurrences-snoc owner queue o v in ground (arith, k)

-- The calls say that the action gives the value.
pub record Gives {A : Type 0} (reading : Reading A) (a : A) : Type 0 where
  pub before : Used
  pub after : Used
  pub given : reading before ≡ (after, ok a)

module _ (t : Texts) (calls : Calls Json) (price gas : ℕ) where
  -- A live trove between the owner before it and the one behind it
  pub record IsLinked (previous owner next : Str) (v : Trove) : Type 0 where
    pub back :
        Gives (address t calls sorted_troves (codes "0x765e0159") (address_word t owner)) previous
    pub read : Gives (trove t calls price gas owner) v
    pub live : v.status ≡ 1
    pub next_link :
        Gives (address t calls sorted_troves (codes "0xb72703ac") (address_word t owner)) next

  -- A queue from its first owner on, with its last owner and the one that its end names
  pub data Chain (start : Str) : List Node → Str → Str → Type 0 where
    nothing : Chain start [] nobody start
    link :
        {queue : List Node} {previous owner next : Str} {v : Trove}
        → Chain start queue previous owner
        → IsLinked previous owner next v
        → Chain start (queue ++ (owner, v) ∷ []) owner next

pub tally-fields :
    (mcr gas : ℕ) (borrower : Str) (v : Trove) (w : Walk)
    → ((tally mcr gas borrower v w).unseen ≡ w.unseen)
      × ((tally mcr gas borrower v w).current ≡ w.current)
unfolding tally
tally-fields mcr gas borrower v w = elim (Bool-cases (leb mcr v.ratio)) [
  | inl e ↦ rw e (refl, refl)
  | inr e ↦ rw e (refl, refl)
]

-- A round that returned
pub record IsRound (t : Texts) (calls : Calls Json) (price mcr gas : ℕ) (borrower : Str)
    (w behind : Walk) : Type 0 where
  pub node : Trove
  pub next : Str
  pub fresh : member_of w.current w.unseen ≡ true
  pub linked : IsLinked t calls price gas w.previous w.current next node
  pub made : move_on next (tally mcr gas borrower node w) ≡ behind

pub round-IsRound :
    (t : Texts) (calls : Calls Json) (price mcr gas : ℕ) (borrower : Str) (w : Walk) (u : Used)
    {used : Used} {behind : Walk}
    → round t calls price mcr gas borrower w u ≡ (used, ok behind)
    → IsRound t calls price mcr gas borrower w behind
unfolding round
round-IsRound t calls price mcr gas borrower w u {used} {behind} h =
    let (d0, fresh, h0) =
      call-eq-ok (require (member_of w.current w.unseen)) _ u {t = used} {b = behind} h in
    let (back, u1, backed, h1) =
      >>=-returned (address t calls sorted_troves (codes "0x765e0159") (address_word t w.current)) _
        u {t = used} {b = behind} h0 in
    let (d1, same, h2) =
      call-eq-ok (require (str_eq back w.previous)) _ u1 {t = used} {b = behind} h1 in
    let (v, u2, read, h3) =
      >>=-returned (trove t calls price gas w.current) _ u1 {t = used} {b = behind} h2 in
    let (d2, live, h4) = call-eq-ok (require (v.status == 1)) _ u2 {t = used} {b = behind} h3 in
    let (next, u3, forward, h5) =
      >>=-returned (address t calls sorted_troves (codes "0xb72703ac") (address_word t w.current)) _
        u2 {t = used} {b = behind} h4 in
    let linked : IsLinked t calls price gas w.previous w.current next v = record {
      back =
          subst
            (Gives (address t calls sorted_troves (codes "0x765e0159") (address_word t w.current)))
            ((str_eq_iff back w.previous).0 (passed (str_eq back w.previous) value_error same))
            (record { before = u; after = u1; given = backed });
      read = record { before = u1; after = u2; given = read };
      live = (==_iff v.status 1).0 (passed (v.status == 1) value_error live);
      next_link = record { before = u2; after = u3; given = forward };
    } in
    record {
      node = v;
      next = next;
      fresh = passed (member_of w.current w.unseen) value_error fresh;
      linked = linked;
      made = ok-injective (ap (λ x. x.1) h5);
    }

module _ (t : Texts) (calls : Calls Json) (price mcr gas : ℕ) (borrower : Str) (owners : List Str)
    (start : Str) where
  -- The queue that was walked so far
  pub record IsWalked (queue : List Node) (w : Walk) : Type 0 where
    pub chain : Chain t calls price gas start queue w.previous w.current
    pub whole :
        (owner : Str)
        → occurrences owner owners ≡ occurrences owner (names queue) + occurrences owner w.unseen
    pub tallied : IsTallied mcr gas borrower queue w

  moved :
      (queue : List Node) (v : Trove) (next : Str) (w : Walk)
      → IsWalked queue w
      → member_of w.current w.unseen ≡ true
      → IsLinked t calls price gas w.previous w.current next v
      → IsWalked (queue ++ (w.current, v) ∷ []) (move_on next (tally mcr gas borrower v w))
  moved queue v next w so_far unseen linked =
      let (same_unseen, same_current) = tally-fields mcr gas borrower v w in
      let tallied = tally-IsTallied mcr gas borrower queue v w so_far.tallied in
      record {
        chain =
            subst (λ c. Chain t calls price gas start (queue ++ (w.current, v) ∷ []) c next)
              (sym same_current) (link so_far.chain linked);
        whole = λ owner.
            (let k = so_far.whole owner in
              let a = occurrences-remove_owner owner w.current w.unseen unseen in
              let b = occurrences-snoc owner queue w.current v in
              rw (same_unseen, same_current) (omega (arith, k, a, b)));
        tallied = record {
          rank = tallied.rank;
          debt_ahead = tallied.debt_ahead;
          net_ahead = tallied.net_ahead;
          place = tallied.place;
        };
      }

  round-IsWalked :
      (queue : List Node) (w behind : Walk)
      → IsWalked queue w
      → (r : IsRound t calls price mcr gas borrower w behind)
      → IsWalked (queue ++ (w.current, r.node) ∷ []) behind
  round-IsWalked queue w behind so_far r =
      subst (IsWalked (queue ++ (w.current, r.node) ∷ [])) r.made
        (moved queue r.node r.next w so_far r.fresh r.linked)

  pub walk-IsWalked :
      (fuel : ℕ) (queue : List Node) (w : Walk) (u : Used) {used : Used} {behind : Walk}
      → IsWalked queue w
      → walk t calls price mcr gas borrower fuel w u ≡ (used, ok behind)
      → (all_of_it : List Node) × IsWalked all_of_it behind × (behind.current ≡ nobody)
  unfolding walk
  walk-IsWalked zero queue w u so_far h = let k = ap (λ x. x.1) h in cc
  walk-IsWalked (suc fuel) queue w u {used} {behind} so_far h =
      elim (Bool-cases (str_eq w.current nobody)) [
        | inl e ↦
            let k = rw e at h in
            let same : w ≡ behind = ok-injective (ap (λ x. x.1) k) in
            (
              queue,
              subst (IsWalked queue) same so_far,
              subst (λ (x : Walk). x.current ≡ nobody) same ((str_eq_iff w.current nobody).0 e),
            )
        | inr e ↦
            let k = rw e at h in
            let (mid, u1, first, rest) =
              >>=-returned (round t calls price mcr gas borrower w)
                (walk t calls price mcr gas borrower fuel) u {t = used} {b = behind} k in
            let r = round-IsRound t calls price mcr gas borrower w u first in
            walk-IsWalked fuel (queue ++ (w.current, r.node) ∷ []) mid u1
              (round-IsWalked queue w mid so_far r) rest
      ]

  pub empty-IsWalked : IsWalked [] (record {
    unseen = owners;
    previous = nobody;
    current = start;
    rank = 0;
    debt_ahead = 0;
    net_ahead = 0;
    place = none;
  })
  unfolding occurrences
  empty-IsWalked = record {
    chain = nothing;
    whole = λ owner. omega arith;
    tallied = empty-IsTallied mcr gas borrower owners start;
  }

  -- Where no owner is left, the queue is all of them.
  pub whole_queue :
      (queue : List Node) (w : Walk)
      → IsWalked queue w
      → w.unseen ≡ []
      → (owner : Str) → occurrences owner (names queue) ≡ occurrences owner owners
  unfolding occurrences
  whole_queue queue w so_far none_left owner =
      let k = so_far.whole owner in
      let e : occurrences owner w.unseen ≡ 0 = ap (occurrences owner) none_left in
      omega (arith, k, e)
