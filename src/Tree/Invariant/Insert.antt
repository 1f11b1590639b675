-- ===== src/Tree/Invariant/Insert.antt =====
-- `find_prefix_locked` of src/radix_tree.cpp keeps the tree well formed, and changes sums over its
-- nodes only by the node that it adds.
pub mod Leaf
use radixforge.Common.{
  ℕ, suc, ◌+◌, ◌≤◌, ◌<◌, ◌≡◌, refl, sym, ap, ◌∙◌, ◌≢◌, List, [], ◌∷◌, arith, ℕ_discrete, dec_lt,
  add64,
}
use radixforge.Tree.Node.{
  RadixNode, Children, nil, child, RadixTree, new_node, root_address, null, total, at, modify,
  add_child,
}
use radixforge.Tree.Total.{IsClearAt, total-modify_same, total-add_child}
use radixforge.Tree.Prefix.{
  PrefixMatch, prefix_node, descend_root, find_prefix_locked, add_leaf, touch, insert,
}
use radixforge.Tree.Prefix.Nodes.{
  descend-next_address, total-descend, at-descend_fresh, descend-current,
}
use radixforge.Tree.Prefix.Nodes.Free.{descend-IsFree}
use radixforge.Tree.Invariant.{IsRooted, IsWellFormed}
use radixforge.Tree.Invariant.Keys.{descend_root-IsRooted, modify-IsRooted, add_child-IsRooted}

pub total-descend_root :
    (w : RadixNode → ℕ) (fresh : ℕ)
    → ((n : RadixNode) (len : ℕ) → w (prefix_node n len) ≡ w n)
    → ((tokens : List ℕ) (tick : ℕ) → w (new_node fresh tokens tick) ≡ 0)
    → (nodes : Children) (ts : List ℕ)
    → total w (descend_root fresh nodes ts).children ≡ total w nodes
unfolding descend_root total
total-descend_root w fresh keep new nil ts = refl
total-descend_root w fresh keep new (child k root ks sibs) ts =
    ground (arith, total-descend w fresh keep new root.address 0 ks ts)

at-descend_root :
    (i fresh : ℕ) (nodes : Children) (ts : List ℕ)
    → i ≢ fresh
    → total (at i) (descend_root fresh nodes ts).children ≡ total (at i) nodes
at-descend_root i fresh nodes ts h =
    total-descend_root (at i) fresh (λ n len. refl) (λ tokens tick. ground arith) nodes ts

at-descend_root_fresh :
    (fresh : ℕ) (nodes : Children) (ts : List ℕ)
    → let d = descend_root fresh nodes ts in
      (total (at fresh) d.children + fresh ≡ total (at fresh) nodes + d.next_address)
      × (fresh ≤ d.next_address)
      × (d.next_address ≤ suc fresh)
unfolding descend_root total
at-descend_root_fresh fresh nil ts = omega arith
at-descend_root_fresh fresh (child k root ks sibs) ts = ground (
  arith,
  at-descend_root (root.address) fresh ks ts,
  at-descend_fresh fresh root.address 0 ks ts,
  descend-next_address fresh root.address 0 ks ts,
)

-- The node that the descent reaches is in the tree, with room for a child at the next token.
pub record Reached (t : RadixTree) (m : PrefixMatch) : Type 0 where
  pub present : total (at m.node) t.nodes ≡ 1
  pub clear : (x : ℕ) (xs : List ℕ) → m.remaining ≡ x ∷ xs → IsClearAt m.node x t.nodes

descend_root-current :
    (fresh : ℕ) (nodes : Children) (ts : List ℕ)
    → IsRooted nodes
    → 0 < total (at (descend_root fresh nodes ts).current) nodes
unfolding descend_root total
descend_root-current fresh nil ts h = absurd h
descend_root-current fresh (child k root ks sibs) ts h =
    ground (arith, descend-current fresh root.address 0 ks ts)

descend_root-IsClearAt :
    (fresh : ℕ) (nodes : Children) (ts : List ℕ)
    → IsRooted nodes
    → ((i : ℕ) → total (at i) nodes ≤ 1)
    → total (at fresh) nodes ≡ 0
    → let d = descend_root fresh nodes ts in
      (x : ℕ) (xs : List ℕ) → d.rest ≡ x ∷ xs → IsClearAt d.current x d.children
unfolding descend_root total
descend_root-IsClearAt fresh nil ts h one new x xs e = tt
descend_root-IsClearAt fresh (child k root ks sibs) ts h one new x xs e =
    let free =
      descend-IsFree fresh root.address 0 ks ts (λ i. omega (arith, one i)) (omega arith)
        (ground (arith, one root.address)) x xs e in
    (λ same. free.0 (sym same), free.1, ground arith)

pub at-root : (nodes : Children) → IsRooted nodes → 0 < total (at root_address) nodes
unfolding total
at-root nil h = absurd h
at-root (child k root ks sibs) h = ground arith

pub root-lt-next_address : (t : RadixTree) → IsWellFormed t → root_address < t.next_address
root-lt-next_address t v = elim (dec_lt root_address t.next_address) [
  | yes h ↦ h
  | no h ↦ absurd (omega (arith, v.unused root_address (omega arith), at-root t.nodes v.rooted))
]

pub find_prefix_locked-IsWellFormed :
    (t : RadixTree) (ts : List ℕ) → IsWellFormed t → IsWellFormed (find_prefix_locked t ts).0
unfolding find_prefix_locked
find_prefix_locked-IsWellFormed t ts v =
    let fresh = at-descend_root_fresh t.next_address t.nodes ts in
    let unchanged = λ (i : ℕ). at-descend_root i t.next_address t.nodes ts in
    record {
      rooted = descend_root-IsRooted t.next_address t.nodes ts v.rooted;
      one = λ i. elim (ℕ_discrete i t.next_address) [
        | yes e ↦ rw e (omega (arith, fresh, v.unused t.next_address))
        | no d ↦ omega (arith, unchanged i d, v.one i)
      ];
      unused = λ i h. elim (ℕ_discrete i t.next_address) [
        | yes e ↦ rw e (omega (arith, fresh, v.unused t.next_address))
        | no d ↦ omega (arith, unchanged i d, v.unused i)
      ];
      not_null = unchanged 0 (λ e. absurd (omega (arith, root-lt-next_address t v))) ∙ v.not_null;
    }

pub find_prefix_locked-Reached :
    (t : RadixTree) (ts : List ℕ)
    → IsWellFormed t
    → let (t', m) = find_prefix_locked t ts in Reached t' m
unfolding find_prefix_locked
find_prefix_locked-Reached t ts v =
    let m = (find_prefix_locked t ts).1 in
    let here = descend_root-current t.next_address t.nodes ts v.rooted in
    let new = v.unused t.next_address (omega arith) in
    record {
      present = elim (ℕ_discrete m.node t.next_address) [
        | yes e ↦ absurd (omega (arith, here, new, ap (λ (i : ℕ). total (at i) t.nodes) e))
        | no d ↦
            omega (arith, here, v.one m.node, at-descend_root m.node t.next_address t.nodes ts d)
      ];
      clear = descend_root-IsClearAt t.next_address t.nodes ts v.rooted v.one new;
    }
