-- ===== src/Tree/Candidates.antt =====
-- `find_eviction_candidates` finds the idle owners, and the least recently used of them first.
use radixforge.Common.{
  subst, Option-cases, ℕ, ◌≤◌, ◌≡◌, refl, inl, inr, Bool, true, false, List, [], ◌∷◌, ◌++◌, some,
  arith, ◌==◌, ltb, if◌then◌else◌, take, Bool-cases, All, All-append, All-left, All-right,
}
use radixforge.Tree.Node.{RadixNode, Children, nil, child, RadixTree, get, total, at}
use radixforge.Tree.Total.{total-get, get-absent}
use radixforge.Tree.Evict.{
  is_idle_owner, idle_owners, insert_by_tick, sort_by_tick, find_eviction_candidates,
}
use radixforge.Tree.Invariant.{IsWellFormed}

module _ (P : RadixNode → Type 0) where
  insert_by_tick-All :
      (n : RadixNode) (ns : List RadixNode) → P n → All P ns → All P (insert_by_tick n ns)
  unfolding insert_by_tick
  insert_by_tick-All n [] p a = (p, tt)
  insert_by_tick-All n (m ∷ ms) p a = ground (arith, insert_by_tick-All n ms p a.1)

  insert_by_tick-back :
      (n : RadixNode) (ns : List RadixNode) → All P (insert_by_tick n ns) → P n × All P ns
  unfolding insert_by_tick
  insert_by_tick-back n [] a = (a.0, tt)
  insert_by_tick-back n (m ∷ ms) a = elim (Bool-cases (ltb m.last_access_tick n.last_access_tick)) [
    | inl older ↦ ground (arith, insert_by_tick-back n ms)
    | inr younger ↦ ground arith
  ]

  sort_by_tick-All : (ns : List RadixNode) → All P ns → All P (sort_by_tick ns)
  unfolding sort_by_tick
  sort_by_tick-All [] a = tt
  sort_by_tick-All (n ∷ ns) a = insert_by_tick-All n (sort_by_tick ns) a.0 (sort_by_tick-All ns a.1)

  sort_by_tick-back : (ns : List RadixNode) → All P (sort_by_tick ns) → All P ns
  unfolding sort_by_tick
  sort_by_tick-back [] a = tt
  sort_by_tick-back (n ∷ ns) a =
      let (p, rest) = insert_by_tick-back n (sort_by_tick ns) a in (p, sort_by_tick-back ns rest)

-- The oldest access stands first.
abbrev IsSorted : List RadixNode → Type 0
IsSorted [] = Unit {0}
IsSorted (n ∷ ns) = All (λ m. n.last_access_tick ≤ m.last_access_tick) ns × IsSorted ns

All-older :
    (k l : ℕ) (ns : List RadixNode)
    → k ≤ l
    → All (λ m. l ≤ m.last_access_tick) ns
    → All (λ m. k ≤ m.last_access_tick) ns
All-older k l [] h a = tt
All-older k l (n ∷ ns) h a = (omega arith, All-older k l ns h a.1)

insert_by_tick-IsSorted :
    (n : RadixNode) (ns : List RadixNode) → IsSorted ns → IsSorted (insert_by_tick n ns)
unfolding insert_by_tick
insert_by_tick-IsSorted n [] s = (tt, tt)
insert_by_tick-IsSorted n (m ∷ ms) s =
    elim (Bool-cases (ltb m.last_access_tick n.last_access_tick)) [
      | inl older ↦ rw older (
        insert_by_tick-All (λ x. m.last_access_tick ≤ x.last_access_tick) n ms (ground arith) s.0,
        insert_by_tick-IsSorted n ms s.1,
      )
      | inr younger ↦
          rw younger (
            (ground arith, All-older n.last_access_tick m.last_access_tick ms (ground arith) s.0),
            s,
          )
    ]

sort_by_tick-IsSorted : (ns : List RadixNode) → IsSorted (sort_by_tick ns)
unfolding sort_by_tick
sort_by_tick-IsSorted [] = tt
sort_by_tick-IsSorted (n ∷ ns) =
    insert_by_tick-IsSorted n (sort_by_tick ns) (sort_by_tick-IsSorted ns)

-- The walk lists only idle owners, each under its own address ...
idle_owners-All :
    (P : RadixNode → Type 0) (F : Children)
    → ((i : ℕ) → total (at i) F ≤ 1)
    → ((n : RadixNode) → get n.address F ≡ some n → is_idle_owner n ≡ true → P n)
    → All P (idle_owners F)
unfolding idle_owners get total
idle_owners-All P nil one h = tt
idle_owners-All P (child k n ks sibs) one h =
    let below =
      idle_owners-All P ks (λ i. omega (arith, one i))
        (λ m e idle.
          h m (ground (arith, one m.address, total-get (at m.address) m.address ks {n = m}))
            idle) in
    let beside =
      idle_owners-All P sibs (λ i. omega (arith, one i))
        (λ m e idle.
          h m
            (ground (
              arith,
              one m.address,
              total-get (at m.address) m.address sibs {n = m},
              get-absent m.address ks,
            ))
            idle) in
    let rest = All-append P (idle_owners ks) (idle_owners sibs) below beside in
    elim (Bool-cases (is_idle_owner n)) [
      | inl idle ↦ rw idle (h n (ground arith) idle, rest)
      | inr busy ↦ rw busy rest
    ]

All-own :
    (P : RadixNode → Type 0) (b : Bool) (n : RadixNode) (ns : List RadixNode)
    → All P ((if b then n ∷ [] else []) ++ ns)
    → (b ≡ true → P n) × All P ns
All-own P true n ns a = (λ _. a.0, a.1)
All-own P false n ns a = (λ e. cc, a)

-- ... and all of them.
All-idle_owners :
    (P : RadixNode → Type 0) (F : Children) (i : ℕ) {n : RadixNode}
    → All P (idle_owners F)
    → get i F ≡ some n
    → is_idle_owner n ≡ true
    → P n
unfolding idle_owners get
All-idle_owners P nil i a e idle = cc
All-idle_owners P (child k m ks sibs) i {n} a e idle =
    let (own, rest) = All-own P (is_idle_owner m) m (idle_owners ks ++ idle_owners sibs) a in
    elim (Bool-cases (m.address == i)) [
      | inl here ↦ let same : m ≡ n = ground arith in subst P same (own (rw same idle))
      | inr there ↦ elim (Option-cases (get i ks)) [
        | inl nowhere ↦
            All-idle_owners P sibs i (All-right P (idle_owners ks) (idle_owners sibs) rest)
              (ground arith) idle
        | inr (m', below) ↦
            All-idle_owners P ks i (All-left P (idle_owners ks) (idle_owners sibs) rest)
              (ground arith) idle
      ]
    ]

not-true→false : (b : Bool) → ¬ (b ≡ true) → b ≡ false
not-true→false true h = absurd (h refl)
not-true→false false h = refl

-- The first candidate is in the tree, idle, and no idle owner was used before it; there is none
-- only where no node is an idle owner.
pub record IsOldest (t : RadixTree) (c : RadixNode) : Type 0 where
  pub present : get c.address t.nodes ≡ some c
  pub idle : is_idle_owner c ≡ true
  pub oldest :
      (i : ℕ) (n : RadixNode)
      → get i t.nodes ≡ some n
      → is_idle_owner n ≡ true
      → c.last_access_tick ≤ n.last_access_tick

abbrev pub Chooses : RadixTree → List RadixNode → Type 0
Chooses t [] = (i : ℕ) (n : RadixNode) → get i t.nodes ≡ some n → is_idle_owner n ≡ false
Chooses t (c ∷ cs) = IsOldest t c

Chooses-first :
    (t : RadixTree) (ns : List RadixNode)
    → IsWellFormed t
    → sort_by_tick (idle_owners t.nodes) ≡ ns
    → Chooses t (take 1 ns)
Chooses-first t [] v e = λ i n found. not-true→false (is_idle_owner n) (λ idle.
    All-idle_owners (λ _. ⊥) t.nodes i (sort_by_tick-back (λ _. ⊥) (idle_owners t.nodes) (rw e tt))
      found idle)
Chooses-first t (c ∷ cs) v e =
    let known =
      sort_by_tick-All (λ n. (get n.address t.nodes ≡ some n) × (is_idle_owner n ≡ true))
        (idle_owners t.nodes)
        (idle_owners-All (λ n. (get n.address t.nodes ≡ some n) × (is_idle_owner n ≡ true)) t.nodes
          v.one (λ n p q. (p, q))) in
    let first : All (λ n. (get n.address t.nodes ≡ some n) × (is_idle_owner n ≡ true)) (c ∷ cs) =
      rw e at known in
    let sorted : IsSorted (c ∷ cs) = rw e at (sort_by_tick-IsSorted (idle_owners t.nodes)) in
    record {
      present = first.0.0;
      idle = first.0.1;
      oldest = λ i n found idle.
          All-idle_owners (λ m. c.last_access_tick ≤ m.last_access_tick) t.nodes i
            (sort_by_tick-back (λ m. c.last_access_tick ≤ m.last_access_tick) (idle_owners t.nodes)
              (rw e (omega arith, sorted.0)))
            found idle;
    }

-- Over a well-formed tree `find_eviction_candidates(1)` returns the idle owner that was used least
-- recently, or nothing where no node is an idle owner.
pub find_eviction_candidates-Chooses :
    (t : RadixTree) → IsWellFormed t → Chooses t (find_eviction_candidates 1 t)
unfolding find_eviction_candidates
find_eviction_candidates-Chooses t v = Chooses-first t (sort_by_tick (idle_owners t.nodes)) v refl
