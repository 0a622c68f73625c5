-- ===== src/Mezo/Walked.antt =====
-- The walk goes through every owner once, and finds the borrower's place.
use liqvera.Prelude.{
  ℕ, suc, ◌+◌, ◌-◌, ◌≤◌, ◌≡◌, refl, sym, ap, ◌∙◌, inl, inr, Bool, true, false, List, [], ◌∷◌, ◌++◌,
  Option, none, some, leb, ◌&&◌, All, All-append, append_assoc, arith, Bool-cases, leb_iff,
  if◌then◌else◌,
}
use liqvera.Python.{Str, str_eq, str_eq_iff}
use liqvera.Mezo.Troves.{nobody, Trove, debt_of}
use liqvera.Mezo.Queue.{Walk, counted, tally}

-- A trove under its owner
abbrev pub Node : Type 0
Node = Str × Trove

-- The sums over the nodes whose ratio is not below the minimum
pub count : ℕ → List Node → ℕ
count mcr [] = 0
count mcr ((o, v) ∷ queue) =
    let rest = count mcr queue in if leb mcr v.ratio then suc rest else rest

pub total : ℕ → List Node → ℕ
total mcr [] = 0
total mcr ((o, v) ∷ queue) =
    let rest = total mcr queue in if leb mcr v.ratio then debt_of v + rest else rest

pub net_total : ℕ → ℕ → List Node → ℕ
net_total mcr gas [] = 0
net_total mcr gas ((o, v) ∷ queue) =
    let rest = net_total mcr gas queue in if leb mcr v.ratio then (debt_of v - gas) + rest else rest

-- The borrower stands in the queue with what the place says before it.
pub record IsPlaced (mcr gas : ℕ) (borrower : Str) (queue : List Node) (place : ℕ × ℕ × ℕ)
    : Type 0 where
  pub before : List Node
  pub node : Trove
  pub after : List Node
  pub split : queue ≡ before ++ (borrower, node) ∷ after
  pub solvent : mcr ≤ node.ratio
  pub rank : place.0 ≡ suc (count mcr before)
  pub debt_ahead : place.1 ≡ total mcr before
  pub net_ahead : place.2 ≡ net_total mcr gas before

-- A place, or none, where no counted node is the borrower's
abbrev pub Placed : ℕ → ℕ → Str → List Node → Option (ℕ × ℕ × ℕ) → Type 0
Placed mcr gas borrower queue none =
    All (λ n. (str_eq n.0 borrower && leb mcr n.1.ratio) ≡ false) queue
Placed mcr gas borrower queue (some place) = IsPlaced mcr gas borrower queue place

count-snoc :
    (mcr : ℕ) (queue : List Node) (o : Str) (v : Trove)
    → count mcr (queue ++ (o, v) ∷ [])
      ≡ (if leb mcr v.ratio then count mcr queue + 1 else count mcr queue)
unfolding count
count-snoc mcr [] o v = refl
count-snoc mcr ((p, w) ∷ queue) o v = let k = count-snoc mcr queue o v in ground (arith, k)

total-snoc :
    (mcr : ℕ) (queue : List Node) (o : Str) (v : Trove)
    → total mcr (queue ++ (o, v) ∷ [])
      ≡ (if leb mcr v.ratio then total mcr queue + debt_of v else total mcr queue)
unfolding total
total-snoc mcr [] o v = ground arith
total-snoc mcr ((p, w) ∷ queue) o v = let k = total-snoc mcr queue o v in ground (arith, k)

net_total-snoc :
    (mcr gas : ℕ) (queue : List Node) (o : Str) (v : Trove)
    → net_total mcr gas (queue ++ (o, v) ∷ []) ≡ (
        if leb mcr v.ratio
        then net_total mcr gas queue + (debt_of v - gas)
        else net_total mcr gas queue)
unfolding net_total
net_total-snoc mcr gas [] o v = ground arith
net_total-snoc mcr gas ((p, w) ∷ queue) o v =
    let k = net_total-snoc mcr gas queue o v in ground (arith, k)

-- A place stays where the queue grows behind it.
IsPlaced-snoc :
    (mcr gas : ℕ) (borrower : Str) (queue : List Node) (n : Node) {place : ℕ × ℕ × ℕ}
    → IsPlaced mcr gas borrower queue place
    → IsPlaced mcr gas borrower (queue ++ n ∷ []) place
IsPlaced-snoc mcr gas borrower queue n p = record {
  before = p.before;
  node = p.node;
  after = p.after ++ n ∷ [];
  split =
      ap (λ q. q ++ n ∷ []) p.split ∙ append_assoc p.before ((borrower, p.node) ∷ p.after) (n ∷ []);
  solvent = p.solvent;
  rank = p.rank;
  debt_ahead = p.debt_ahead;
  net_ahead = p.net_ahead;
}

-- What the sums and the place of the walk are over the queue so far.
pub record IsTallied (mcr gas : ℕ) (borrower : Str) (queue : List Node) (w : Walk) : Type 0 where
  pub rank : w.rank ≡ count mcr queue
  pub debt_ahead : w.debt_ahead ≡ total mcr queue
  pub net_ahead : w.net_ahead ≡ net_total mcr gas queue
  pub place : Placed mcr gas borrower queue w.place

Placed-snoc :
    (mcr gas : ℕ) (borrower : Str) (queue : List Node) (o : Str) (v : Trove)
    (place : Option (ℕ × ℕ × ℕ))
    → (str_eq o borrower && leb mcr v.ratio) ≡ false
    → Placed mcr gas borrower queue place
    → Placed mcr gas borrower (queue ++ (o, v) ∷ []) place
Placed-snoc mcr gas borrower queue o v none h p = All-append _ queue ((o, v) ∷ []) p (h, tt)
Placed-snoc mcr gas borrower queue o v (some place) h p =
    IsPlaced-snoc mcr gas borrower queue (o, v) p

&&-false : (a b : Bool) → b ≡ false → (a && b) ≡ false
&&-false a b h = ground arith

here-IsPlaced :
    (mcr gas : ℕ) (borrower : Str) (queue : List Node) (o : Str) (v : Trove)
    → o ≡ borrower
    → mcr ≤ v.ratio
    → IsPlaced mcr gas borrower
        (queue ++ (o, v) ∷ [])
        (count mcr queue + 1, total mcr queue, net_total mcr gas queue)
here-IsPlaced mcr gas borrower queue o v e h = record {
  before = queue;
  node = v;
  after = [];
  split = ap (λ x. queue ++ (x, v) ∷ []) e;
  solvent = h;
  rank = omega arith;
  debt_ahead = refl;
  net_ahead = refl;
}

module _ (mcr gas : ℕ) (borrower : Str) (queue : List Node) (v : Trove) (w : Walk)
    (so_far : IsTallied mcr gas borrower queue w) where
  counted-IsTallied :
      leb mcr v.ratio ≡ true
      → IsTallied mcr gas borrower
          (queue ++ (w.current, v) ∷ [])
          (counted gas borrower w.current v w)
  counted-IsTallied h = record {
    rank = ap (λ n. n + 1) so_far.rank ∙ sym (count-snoc mcr queue w.current v ∙ rw h refl);
    debt_ahead =
        ap (λ n. n + debt_of v) so_far.debt_ahead
        ∙ sym (total-snoc mcr queue w.current v ∙ rw h refl);
    net_ahead =
        ap (λ n. n + (debt_of v - gas)) so_far.net_ahead
        ∙ sym (net_total-snoc mcr gas queue w.current v ∙ rw h refl);
    place = elim (Bool-cases (str_eq w.current borrower)) [
      | inl e ↦
          rw (e, so_far.rank, so_far.debt_ahead, so_far.net_ahead)
            (here-IsPlaced mcr gas borrower queue w.current v ((str_eq_iff w.current borrower).0 e)
              ((leb_iff mcr v.ratio).0 h))
      | inr e ↦
          rw e (Placed-snoc mcr gas borrower queue w.current v w.place (rw e refl) so_far.place)
    ];
  }

  passed-IsTallied :
      leb mcr v.ratio ≡ false → IsTallied mcr gas borrower (queue ++ (w.current, v) ∷ []) w
  passed-IsTallied h = record {
    rank = so_far.rank ∙ sym (count-snoc mcr queue w.current v ∙ rw h refl);
    debt_ahead = so_far.debt_ahead ∙ sym (total-snoc mcr queue w.current v ∙ rw h refl);
    net_ahead = so_far.net_ahead ∙ sym (net_total-snoc mcr gas queue w.current v ∙ rw h refl);
    place =
        Placed-snoc mcr gas borrower queue w.current v w.place
          (&&-false (str_eq w.current borrower) (leb mcr v.ratio) h) so_far.place;
  }

  pub tally-IsTallied :
      IsTallied mcr gas borrower (queue ++ (w.current, v) ∷ []) (tally mcr gas borrower v w)
  unfolding tally
  tally-IsTallied = elim (Bool-cases (leb mcr v.ratio)) [
    | inl e ↦ rw e (counted-IsTallied e)
    | inr e ↦ rw e (passed-IsTallied e)
  ]

-- Before the first round
pub empty-IsTallied :
    (mcr gas : ℕ) (borrower : Str) (owners : List Str) (last : Str)
    → IsTallied mcr gas borrower [] (record {
      unseen = owners;
      previous = nobody;
      current = last;
      rank = 0;
      debt_ahead = 0;
      net_ahead = 0;
      place = none;
    })
unfolding count total net_total
empty-IsTallied mcr gas borrower owners last = record {
  rank = refl;
  debt_ahead = refl;
  net_ahead = refl;
  place = tt;
}
