-- ===== src/Tree/Invariant/Prune.antt =====
-- `prune_empty_leaves_locked` keeps the tree well formed, and removes only nodes that carry
-- nothing.
use radixforge.Common.{
  ℕ, ◌≤◌, ◌≡◌, refl, ap, ◌≢◌, inl, inr, true, false, List, [], ◌∷◌, arith, ◌==◌, if◌then◌else◌,
  is_empty, Bool-cases,
}
use radixforge.Tree.Node.{
  RadixNode, Children, nil, child, RadixTree, root_address, null, has_key, total, at, erase_key,
}
use radixforge.Tree.Evict.{
  no_children, is_prunable, Pruned, absent, stopped, erased, prune_node, prune_below, prune_in,
  prune_empty_leaves_locked,
}
use radixforge.Tree.Invariant.{IsKeyed, IsRooted, IsWellFormed}

has_key-erase_key :
    (j key : ℕ) (F : Children) → has_key j F ≡ false → has_key j (erase_key key F) ≡ false
unfolding has_key erase_key
has_key-erase_key j key nil h = refl
has_key-erase_key j key (child k n ks sibs) h = ground (arith, has_key-erase_key j key sibs)

erase_key-IsKeyed : (key : ℕ) (F : Children) → IsKeyed F → IsKeyed (erase_key key F)
unfolding erase_key
erase_key-IsKeyed key nil h = tt
erase_key-IsKeyed key (child k n ks sibs) (e, l, u, below, beside) =
    ground (arith, has_key-erase_key k key sibs, erase_key-IsKeyed key sibs beside)

total-erase_key-le :
    (w : RadixNode → ℕ) (key : ℕ) (F : Children) → total w (erase_key key F) ≤ total w F
unfolding erase_key total
total-erase_key-le w key nil = omega arith
total-erase_key-le w key (child k n ks sibs) = ground (arith, total-erase_key-le w key sibs)

-- A weight that is 0 at the nodes that can be pruned.
abbrev pub IsWeightless : (RadixNode → ℕ) → Type 0
IsWeightless w = (n : RadixNode) → n.ref_count ≡ 0 → n.seq_ids ≡ [] → w n ≡ 0

no_children-nil : (F : Children) → no_children F ≡ true → F ≡ nil
no_children-nil nil e = refl
no_children-nil (child k n ks sibs) e = cc

is_empty-nil : (xs : List ℕ) → is_empty xs ≡ true → xs ≡ []
is_empty-nil [] e = refl
is_empty-nil (x ∷ xs) e = cc

is_prunable-facts :
    (n : RadixNode) (ks : Children)
    → is_prunable n ks ≡ true
    → (n.address ≢ root_address) × (n.ref_count ≡ 0) × (n.seq_ids ≡ []) × (ks ≡ nil)
unfolding is_prunable
is_prunable-facts n ks h = (
  λ e. ground arith,
  ground arith,
  is_empty-nil n.seq_ids (ground arith),
  no_children-nil ks (ground arith),
)

-- What the loop did to the children `F` of one node.
abbrev Keeps : (RadixNode → ℕ) → Children → Pruned → Type 0
Keeps w F absent = Unit {0}
Keeps w F (stopped F') =
    (total w F' ≡ total w F) × IsKeyed F' × ((j : ℕ) → has_key j F ≡ false → has_key j F' ≡ false)
Keeps w F (erased key) = (has_key key F ≡ true) × (total w (erase_key key F) ≡ total w F)

module _ (w : RadixNode → ℕ) (weightless : IsWeightless w) where
  prune_node-Keeps :
      (k : ℕ) (n : RadixNode) (ks ks' sibs : Children)
      → IsKeyed (child k n ks sibs)
      → total w ks' ≡ total w ks
      → IsKeyed ks'
      → Keeps w (child k n ks sibs) (prune_node k n ks' sibs)
  unfolding prune_node total has_key erase_key
  prune_node-Keeps k n ks ks' sibs (e, l, u, below, beside) same keyed =
      elim (Bool-cases (is_prunable n ks')) [
        | inl gone ↦
            let (not_root, idle, empty, leaf) = is_prunable-facts n ks' gone in
            rw gone (ground arith, ground (arith, weightless n idle empty, ap (total w) leaf))
        | inr stays ↦ rw stays (ground arith, ground arith, λ j h. ground arith)
      ]

  prune_below-Keeps :
      (k : ℕ) (n : RadixNode) (ks sibs : Children) (p q : Pruned)
      → IsKeyed (child k n ks sibs)
      → Keeps w ks p
      → Keeps w sibs q
      → Keeps w (child k n ks sibs) (prune_below k n ks sibs p q)
  unfolding prune_below total has_key erase_key
  prune_below-Keeps k n ks sibs (erased key) q h (found, same) _ =
      prune_node-Keeps k n ks (erase_key key ks) sibs h same (erase_key-IsKeyed key ks h.3)
  prune_below-Keeps k n ks sibs (stopped ks') q (e, l, u, below, beside) (same, keyed, keys) _ =
      (ground arith, (e, l, u, keyed, beside), λ j free. free)
  prune_below-Keeps k n ks sibs absent (erased key) (e, l, u, below, beside) _ (found, same) =
      (ground arith, ground arith)
  prune_below-Keeps k n ks sibs absent (stopped sibs') (e, l, u, below, beside) _
        (same, keyed, keys) =
      (ground arith, (e, l, keys k u, below, keyed), λ j free. ground (arith, keys j))
  prune_below-Keeps k n ks sibs absent absent h _ _ = tt

  prune_in-Keeps : (i : ℕ) (F : Children) → IsKeyed F → Keeps w F (prune_in i F)
  unfolding prune_in
  prune_in-Keeps i nil h = tt
  prune_in-Keeps i (child k n ks sibs) h = elim (Bool-cases (n.address == i)) [
    | inl here ↦ rw here (prune_node-Keeps k n ks ks sibs h refl h.3)
    | inr there ↦ rw there (
        prune_below-Keeps k n ks sibs (prune_in i ks) (prune_in i sibs) h (prune_in-Keeps i ks h.3)
          (prune_in-Keeps i sibs h.4))
  ]

-- The root stays, and the loop ends below it.
root_stays :
    (k : ℕ) (root : RadixNode) (ks : Children)
    → root.address ≡ root_address
    → prune_node k root ks nil ≡ stopped (child k root ks nil)
unfolding prune_node is_prunable
root_stays k root ks e = ground arith

abbrev RootKeeps : (RadixNode → ℕ) → Children → Children → Type 0
RootKeeps w nodes nodes' = (total w nodes' ≡ total w nodes) × IsRooted nodes'

prune_root-Keeps :
    (w : RadixNode → ℕ) (k : ℕ) (root : RadixNode) (ks : Children) (i : ℕ) (p : Pruned)
    → IsRooted (child k root ks nil)
    → Keeps w ks p
    → let r : Pruned =
        if root.address == i
        then prune_node k root ks nil
        else prune_below k root ks nil p absent in
      RootKeeps w (child k root ks nil) (elim r [
        | stopped F ↦ F
        | absent ↦ child k root ks nil
        | erased key ↦ erase_key key (child k root ks nil)
      ])
unfolding prune_below total
prune_root-Keeps w k root ks i (erased key) (a, e, keyed, s) (found, same) =
    rw (root_stays k root ks a, root_stays k root (erase_key key ks) a)
      (ground (arith, erase_key-IsKeyed key ks keyed))
prune_root-Keeps w k root ks i (stopped ks') (a, e, keyed, s) (same, keyed', keys) =
    rw (root_stays k root ks a) (ground arith)
prune_root-Keeps w k root ks i absent (a, e, keyed, s) h =
    rw (root_stays k root ks a) (ground arith)

pub prune-Keeps :
    (w : RadixNode → ℕ) (i : ℕ) (nodes : Children)
    → IsWeightless w
    → IsRooted nodes
    → RootKeeps w nodes (prune_empty_leaves_locked i nodes)
unfolding prune_empty_leaves_locked prune_in
prune-Keeps w i nil weightless h = absurd h
prune-Keeps w i (child k root ks nil) weightless h =
    prune_root-Keeps w k root ks i (prune_in i ks) h (prune_in-Keeps w weightless i ks h.2)
prune-Keeps w i (child k root ks (child j m a b)) weightless h = cc (h.3)

-- No weight grows, also not one of the nodes that are pruned.
abbrev Shrinks : (RadixNode → ℕ) → Children → Pruned → Type 0
Shrinks w F (stopped F') = total w F' ≤ total w F
Shrinks w F _ = Unit {0}

module _ (w : RadixNode → ℕ) where
  prune_node-Shrinks :
      (k : ℕ) (n : RadixNode) (ks ks' sibs : Children)
      → total w ks' ≤ total w ks
      → Shrinks w (child k n ks sibs) (prune_node k n ks' sibs)
  unfolding prune_node total
  prune_node-Shrinks k n ks ks' sibs h = elim (Bool-cases (is_prunable n ks')) [
    | inl gone ↦ rw gone tt
    | inr stays ↦ rw stays (omega arith)
  ]

  prune_below-Shrinks :
      (k : ℕ) (n : RadixNode) (ks sibs : Children) (p q : Pruned)
      → Shrinks w ks p
      → Shrinks w sibs q
      → Shrinks w (child k n ks sibs) (prune_below k n ks sibs p q)
  unfolding prune_below total
  prune_below-Shrinks k n ks sibs (erased key) q _ _ =
      prune_node-Shrinks k n ks (erase_key key ks) sibs (total-erase_key-le w key ks)
  prune_below-Shrinks k n ks sibs (stopped ks') q h _ = omega arith
  prune_below-Shrinks k n ks sibs absent (erased key) _ _ = tt
  prune_below-Shrinks k n ks sibs absent (stopped sibs') _ h = omega arith
  prune_below-Shrinks k n ks sibs absent absent _ _ = tt

  prune_in-Shrinks : (i : ℕ) (F : Children) → Shrinks w F (prune_in i F)
  unfolding prune_in
  prune_in-Shrinks i nil = tt
  prune_in-Shrinks i (child k n ks sibs) = elim (Bool-cases (n.address == i)) [
    | inl here ↦ rw here (prune_node-Shrinks k n ks ks sibs (omega arith))
    | inr there ↦ rw there (
        prune_below-Shrinks k n ks sibs (prune_in i ks) (prune_in i sibs) (prune_in-Shrinks i ks)
          (prune_in-Shrinks i sibs))
  ]

  pub total-prune-le :
      (i : ℕ) (nodes : Children) → total w (prune_empty_leaves_locked i nodes) ≤ total w nodes
  unfolding prune_empty_leaves_locked
  total-prune-le i nodes = go (prune_in i nodes) (prune_in-Shrinks i nodes)
    where
      go :
          (p : Pruned)
          → Shrinks w nodes p
          → total w (elim p [ stopped F ↦ F | absent ↦ nodes | erased key ↦ erase_key key nodes ])
            ≤ total w nodes
      go (stopped F) h = h
      go absent h = omega arith
      go (erased key) h = total-erase_key-le w key nodes

pub prune-IsWellFormed :
    (i : ℕ) (t : RadixTree)
    → IsWellFormed t
    → IsWellFormed (record t { nodes = prune_empty_leaves_locked i t.nodes })
prune-IsWellFormed i t v = record {
  rooted = (prune-Keeps (λ n. 0) i t.nodes (λ n h e. refl) v.rooted).1;
  one = λ j. omega (arith, total-prune-le (at j) i t.nodes, v.one j);
  unused = λ j h. omega (arith, total-prune-le (at j) i t.nodes, v.unused j h);
  not_null = omega (arith, total-prune-le (at null) i t.nodes, v.not_null);
}
