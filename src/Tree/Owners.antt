-- ===== src/Tree/Owners.antt =====
-- Which sequences the tree owns under each operation of src/radix_tree.cpp.
pub mod Extend
use radixforge.Common.{
  ℕ, ◌+◌, ◌≤◌, ◌<◌, ◌≡◌, refl, ap, ◌∙◌, inl, inr, Bool, List, [], ◌∷◌, some, arith, if◌then◌else◌,
  indicator, count, contains-count, count-set_insert, count-set_erase, is_empty, add64,
  Option-cases, ℕ_discrete,
}
use radixforge.Tree.Node.{RadixNode, Children, RadixTree, new_node, total, at, owns, modify, get}
use radixforge.Tree.Total.{
  total-modify, total-modify_same, total-get, get-at, get-present, total-add_child, only,
  total-only, total-only-absent,
}
use radixforge.Tree.Prefix.{PrefixMatch, prefix_node, find_prefix_locked, add_leaf, touch, insert}
use radixforge.Tree.Sequences.{
  register_at, register_seq_id, ready_at, mark_seq_id_ready, forget_at, release_seq_id, adopt_at,
  cover_at, move_to, move_sequence, extend_seq_id,
}
use radixforge.Tree.Invariant.{IsWellFormed}
use radixforge.Tree.Invariant.Insert.{Reached, total-descend_root, find_prefix_locked-Reached}
use radixforge.Tree.Invariant.Insert.Leaf.{
  modify-IsWellFormed, tick-IsWellFormed, found-IsWellFormed, found-present,
}
use radixforge.Tree.Invariant.Release.{at-one, references}

-- A weight that only the sequences and references of a node count for.
pub record IsStable (w : RadixNode → ℕ) : Type 0 where
  pub keep : (n : RadixNode) (len : ℕ) → w (prefix_node n len) ≡ w n
  pub new : (address : ℕ) (tokens : List ℕ) (tick : ℕ) → w (new_node address tokens tick) ≡ 0

total-add_leaf :
    (w : RadixNode → ℕ) (tick : ℕ) (t : RadixTree) (m : PrefixMatch)
    → IsStable w
    → Reached t m
    → total w (add_leaf tick t m).0.nodes ≡ total w t.nodes
unfolding add_leaf
total-add_leaf w tick t m st r = go m.remaining refl
  where
    go : (ts : List ℕ) → m.remaining ≡ ts → total w (add_leaf tick t m).0.nodes ≡ total w t.nodes
    go [] e = rw (e, add_leaf) refl
    go (x ∷ xs) e =
        rw (e, add_leaf)
          (omega (
            arith,
            total-add_child w m.node x (new_node t.next_address (x ∷ xs) tick) t.nodes r.present
                (r.clear x xs e),
            st.new t.next_address (x ∷ xs) tick,
          ))

-- Neither the split nor the new leaf gains or loses anything that is counted.
pub total-found :
    (w : RadixNode → ℕ) (t : RadixTree) (ts : List ℕ) (tick : ℕ)
    → IsStable w
    → IsWellFormed t
    → let (t1, found) = find_prefix_locked t ts in
      total w (add_leaf tick t1 found).0.nodes ≡ total w t.nodes
unfolding find_prefix_locked
total-found w t ts tick st v =
    let (t1, found) = find_prefix_locked t ts in
    total-add_leaf w tick t1 found st (find_prefix_locked-Reached t ts v)
    ∙ total-descend_root w t.next_address st.keep (st.new t.next_address) t.nodes ts

pub owns-IsStable : (s : ℕ) → IsStable (owns s)
unfolding count
owns-IsStable s = record { keep = λ n len. refl; new = λ address tokens tick. refl }

pub owns-insert :
    (s : ℕ) (t : RadixTree) (prompt : List ℕ)
    → IsWellFormed t
    → total (owns s) (insert t prompt).0.nodes ≡ total (owns s) t.nodes
unfolding insert find_prefix_locked
owns-insert s t prompt v =
    let tick = add64 t.tick 1 in
    total-modify_same (owns s) _ (touch tick) _ (λ n. refl)
    ∙ total-found (owns s) (record t { tick = tick }) prompt tick (owns-IsStable s)
        (tick-IsWellFormed t tick v)

-- A sequence that nobody owns is registered at a node: it is owned once.
pub owns-register_seq_id :
    (y i s len : ℕ) (t : RadixTree)
    → IsWellFormed t
    → total (at i) t.nodes ≡ 1
    → total (owns s) t.nodes ≡ 0
    → total (owns y) (register_seq_id i s len t).nodes ≡ total (owns y) t.nodes + indicator s y
unfolding register_seq_id
owns-register_seq_id y i s len t v present unowned =
    let (n, found) = get-present i t.nodes (omega arith) in
    omega (
      arith,
      total-modify (owns y) i (register_at s len) t.nodes present found,
      count-set_insert s y n.seq_ids (omega (arith, total-get (owns s) i t.nodes found)),
    )

pub register_seq_id-IsWellFormed :
    (i s len : ℕ) (t : RadixTree) → IsWellFormed t → IsWellFormed (register_seq_id i s len t)
unfolding register_seq_id
register_seq_id-IsWellFormed i s len t v =
    modify-IsWellFormed i (register_at s len) t (λ n. (refl, refl)) v

ready_at-same :
    (s : ℕ) (n : RadixNode)
    → ((ready_at s n).tokens ≡ n.tokens)
      × ((ready_at s n).address ≡ n.address)
      × ((ready_at s n).seq_ids ≡ n.seq_ids)
ready_at-same s n = ground arith

pub mark_seq_id_ready-IsWellFormed :
    (i s : ℕ) (t : RadixTree) → IsWellFormed t → IsWellFormed (mark_seq_id_ready i s t)
unfolding mark_seq_id_ready
mark_seq_id_ready-IsWellFormed i s t v =
    modify-IsWellFormed i (ready_at s) t (λ n. ground (arith, ready_at-same s n)) v

pub owns-mark_seq_id_ready :
    (y i s : ℕ) (t : RadixTree)
    → total (owns y) (mark_seq_id_ready i s t).nodes ≡ total (owns y) t.nodes
unfolding mark_seq_id_ready
owns-mark_seq_id_ready y i s t =
    total-modify_same (owns y) i (ready_at s) t.nodes (λ n. ap (count y) (ready_at-same s n).2)

-- `release_seq_id` gives the sequence up exactly when it returns true.
pub owns-release_seq_id :
    (y i s : ℕ) (retain : Bool) (t : RadixTree)
    → IsWellFormed t
    → let (t', freed) = release_seq_id i s retain t in
      total (owns y) t'.nodes + (if freed then indicator s y else 0) ≡ total (owns y) t.nodes
unfolding release_seq_id
owns-release_seq_id y i s retain t v = elim (Option-cases (get i t.nodes)) [
  | inl missing ↦ rw (missing, release_seq_id) (omega arith)
  | inr (n, found) ↦
      rw (found, release_seq_id)
        (ground (
          arith,
          total-modify (owns y) i (forget_at s) t.nodes {n = n} (at-one i t v found) found,
          count-set_erase s y n.seq_ids,
          contains-count s n.seq_ids,
        ))
]

pub release_seq_id-IsWellFormed :
    (i s : ℕ) (retain : Bool) (t : RadixTree)
    → IsWellFormed t
    → IsWellFormed (release_seq_id i s retain t).0
unfolding release_seq_id
release_seq_id-IsWellFormed i s retain t v =
    ground (arith, modify-IsWellFormed i (forget_at s) t (λ n. (refl, refl)) v, v)

-- The node that `insert` returns is referenced, and stays at one address.
pub references-insert :
    (t : RadixTree) (prompt : List ℕ)
    → IsWellFormed t
    → let (t', m) = insert t prompt in 0 < total (references m.node) t'.nodes
unfolding insert find_prefix_locked
references-insert t prompt v =
    let tick = add64 t.tick 1 in
    let t0 = record t { tick = tick } in
    let (t1, m1) = find_prefix_locked t0 prompt in
    let (t2, m2) = add_leaf tick t1 m1 in
    let there = found-present t0 prompt tick (tick-IsWellFormed t tick v) in
    let (n, e) = get-present m2.node t2.nodes (omega arith) in
    ground (
      arith,
      total-modify (references m2.node) m2.node (touch tick) t2.nodes {n = n} there e,
      get-at m2.node t2.nodes {n = n} e,
    )
