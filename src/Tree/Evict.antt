-- ===== src/Tree/Evict.antt =====
-- `release`, `prune_empty_leaves_locked`, `find_eviction_candidates` and `evict` of
-- src/radix_tree.cpp.
use radixforge.Common.{
  ℕ, ◌-◌, Bool, true, false, not, ◌&&◌, List, [], ◌∷◌, ◌++◌, none, some, ◌==◌, ltb, if◌then◌else◌,
  take, is_empty,
}
use radixforge.Tree.Node.{
  RadixNode, Children, nil, child, RadixTree, root_address, get, modify, erase_key,
}
use radixforge.Tree.Prefix.{front}

abbrev pub no_children : Children → Bool
no_children nil = true
no_children (child k n ks sibs) = false

-- The condition of the loop, at a node that is not null.
unfoldable pub is_prunable : RadixNode → Children → Bool
is_prunable n ks =
    not (n.address == root_address) && n.ref_count == 0 && is_empty n.seq_ids && no_children ks

-- What the loop of `prune_empty_leaves_locked` did below one node: the start is not there; it
-- stopped inside; or it goes on at the owner, whose child at the key is to be erased.
pub data Pruned : Type 0 where
  absent : Pruned
  stopped : Children → Pruned
  erased : ℕ → Pruned

-- The body of the loop at a node whose children are `ks`.
unfoldable pub prune_node : ℕ → RadixNode → Children → Children → Pruned
prune_node k n ks sibs =
    if is_prunable n ks then erased (front n.tokens) else stopped (child k n ks sibs)

-- From what happened among a node's children and among the entries behind it.
unfoldable pub prune_below : ℕ → RadixNode → Children → Children → Pruned → Pruned → Pruned
prune_below k n ks sibs (erased key) _ = prune_node k n (erase_key key ks) sibs
prune_below k n ks sibs (stopped ks') _ = stopped (child k n ks' sibs)
prune_below k n ks sibs absent (erased key) = erased key
prune_below k n ks sibs absent (stopped sibs') = stopped (child k n ks sibs')
prune_below k n ks sibs absent absent = absent

unfoldable pub prune_in : ℕ → Children → Pruned
prune_in i nil = absent
prune_in i (child k n ks sibs) =
    if n.address == i
    then prune_node k n ks sibs
    else prune_below k n ks sibs (prune_in i ks) (prune_in i sibs)

-- The root is not pruned, so that the loop ends inside.
unfoldable pub prune_empty_leaves_locked : ℕ → Children → Children
prune_empty_leaves_locked i nodes = elim (prune_in i nodes) [
  | stopped nodes' ↦ nodes'
  | absent ↦ nodes
  | erased key ↦ erase_key key nodes
]

abbrev pub drop_reference : RadixNode → RadixNode
drop_reference n = record n { ref_count = n.ref_count - 1 }

unfoldable pub release : ℕ → RadixTree → RadixTree
release i t = elim (get i t.nodes) [
  | none ↦ t
  | some n ↦
      if ltb 0 n.ref_count
      then record t { nodes = prune_empty_leaves_locked i (modify i drop_reference t.nodes) }
      else t
]

abbrev pub is_idle_owner : RadixNode → Bool
is_idle_owner n = not (n.address == root_address) && n.ref_count == 0 && not (is_empty n.seq_ids)

-- The walk of `find_eviction_candidates`; the order of a node's children is not specified in the
-- source, and is that of the list here.
unfoldable pub idle_owners : Children → List RadixNode
idle_owners nil = []
idle_owners (child k n ks sibs) =
    (if is_idle_owner n then n ∷ [] else []) ++ (idle_owners ks ++ idle_owners sibs)

-- `std::sort` by `last_access_tick`.
unfoldable pub insert_by_tick : RadixNode → List RadixNode → List RadixNode
insert_by_tick n [] = n ∷ []
insert_by_tick n (m ∷ ms) =
    if ltb m.last_access_tick n.last_access_tick then m ∷ insert_by_tick n ms else n ∷ m ∷ ms

unfoldable pub sort_by_tick : List RadixNode → List RadixNode
sort_by_tick [] = []
sort_by_tick (n ∷ ns) = insert_by_tick n (sort_by_tick ns)

unfoldable pub find_eviction_candidates : ℕ → RadixTree → List RadixNode
find_eviction_candidates limit t = take limit (sort_by_tick (idle_owners t.nodes))

abbrev pub clear_sequences : RadixNode → RadixNode
clear_sequences n = record n { seq_ids = []; ready_seq_ids = []; canonical_len = 0 }

-- Only the root has no parent.
unfoldable pub evict : ℕ → RadixTree → RadixTree × List ℕ
evict i t = elim (get i t.nodes) [
  | none ↦ (t, [])
  | some n ↦
      if is_idle_owner n
      then (
        record t { nodes = prune_empty_leaves_locked i (modify i clear_sequences t.nodes) },
        n.seq_ids,
      )
      else (t, [])
]
