-- ===== src/Tree/Sequences.antt =====
-- The registration of physical sequences in src/radix_tree.cpp: `register_seq_id`,
-- `mark_seq_id_ready`, `release_seq_id`, `extend_seq_id` and `find_covering_seq_id`.
use radixforge.Common.{
  ℕ, ◌+◌, min, Bool, true, false, not, ◌&&◌, ◌||◌, List, [], ◌∷◌, Option, none, some, ◌==◌, ltb,
  leb, if◌then◌else◌, length, is_empty, add64, contains, set_insert, set_erase,
}
use radixforge.Tree.Node.{
  RadixNode, Children, nil, child, RadixTree, get, children_of, modify, chain,
}
use radixforge.Tree.Prefix.{find_prefix_locked, add_leaf}

abbrev pub register_at : ℕ → ℕ → RadixNode → RadixNode
register_at s len n = record n {
  seq_ids = set_insert s n.seq_ids;
  canonical_len = if n.canonical_len == 0 then len else n.canonical_len;
}

unfoldable pub register_seq_id : ℕ → ℕ → ℕ → RadixTree → RadixTree
register_seq_id i s len t = record t { nodes = modify i (register_at s len) t.nodes }

abbrev pub ready_at : ℕ → RadixNode → RadixNode
ready_at s n =
    if contains s n.seq_ids then record n { ready_seq_ids = set_insert s n.ready_seq_ids } else n

unfoldable pub mark_seq_id_ready : ℕ → ℕ → RadixTree → RadixTree
mark_seq_id_ready i s t = record t { nodes = modify i (ready_at s) t.nodes }

-- The sequence leaves the node; without any left its coverage is reset.
abbrev pub forget_at : ℕ → RadixNode → RadixNode
forget_at s n = record n {
  seq_ids = set_erase s n.seq_ids;
  ready_seq_ids = set_erase s n.ready_seq_ids;
  canonical_len = if is_empty (set_erase s n.seq_ids) then 0 else n.canonical_len;
}

unfoldable pub release_seq_id : ℕ → ℕ → Bool → RadixTree → RadixTree × Bool
release_seq_id i s retain t = elim (get i t.nodes) [
  | none ↦ (t, false)
  | some n ↦
      if not (contains s n.seq_ids)
      then (t, false)
      else if retain && contains s n.ready_seq_ids && leb (length n.seq_ids) 1
      then (t, false)
      else (record t { nodes = modify i (forget_at s) t.nodes }, true)
]

abbrev pub adopt_at : ℕ → ℕ → ℕ → RadixNode → RadixNode
adopt_at s len tick n = record n {
  seq_ids = set_insert s n.seq_ids;
  ready_seq_ids = set_insert s n.ready_seq_ids;
  canonical_len = len;
  last_access_tick = tick;
}

abbrev pub cover_at : ℕ → RadixNode → RadixNode
cover_at len n = record n { canonical_len = len }

-- The end of `extend_seq_id`: the node for the tokens takes the sequence over from the node `i`,
-- unless it is that node. `tick` is the tree's tick so far.
unfoldable pub move_to : ℕ → ℕ → ℕ → ℕ → ℕ → RadixTree → RadixTree × ℕ
move_to i s len tick target t =
    if target == i
    then (record t { nodes = modify i (cover_at len) t.nodes; tick = tick }, i)
    else (
      record t {
        nodes = modify target (adopt_at s len (add64 tick 1)) (modify i (forget_at s) t.nodes);
        tick = add64 tick 1;
      },
      target,
    )

-- The part behind the guard. A new leaf takes a tick of its own.
unfoldable pub move_sequence : ℕ → ℕ → List ℕ → ℕ → RadixTree → RadixTree × ℕ
move_sequence i s tokens len t0 =
    let (t1, found) = find_prefix_locked t0 tokens in
    let tick = if is_empty found.remaining then t0.tick else add64 t0.tick 1 in
    let (t2, m) = add_leaf tick t1 found in move_to i s len tick m.node t2

unfoldable pub extend_seq_id : ℕ → ℕ → List ℕ → ℕ → RadixTree → RadixTree × ℕ
extend_seq_id i s tokens len t = elim (get i t.nodes) [
  | none ↦ (t, i)
  | some n ↦
      if is_empty tokens
        || leb len 0
        || ltb (length tokens) len
        || not (contains s n.seq_ids)
        || not (contains s n.ready_seq_ids)
      then (t, i)
      else move_sequence i s tokens len t
]

-- `cumulative_token_depth`, over the pointers from a node up.
unfoldable pub cumulative_token_depth : List RadixNode → ℕ
cumulative_token_depth [] = 0
cumulative_token_depth (a ∷ up) = length a.tokens + cumulative_token_depth up

-- The loop over the ancestors in `find_covering_seq_id_locked`: the first ready sequence, and the
-- tokens that it covers.
unfoldable pub covering_ancestor : List RadixNode → Option (ℕ × ℕ)
covering_ancestor [] = none
covering_ancestor (a ∷ up) = elim a.ready_seq_ids [
  | [] ↦ covering_ancestor up
  | s ∷ _ ↦ some (s, min a.canonical_len (cumulative_token_depth (a ∷ up)))
]

-- `find_covering_seq_id_locked` at each of the children of a node, whose own pointers up are `up`.
unfoldable pub covering_children : List RadixNode → Children → Option (ℕ × ℕ)
covering_children up nil = none
covering_children up (child k n ks sibs) = elim (covering_ancestor (n ∷ up)) [
  | some r ↦ some r
  | none ↦ elim (covering_children (n ∷ up) ks) [
    | some r ↦ some r
    | none ↦ covering_children up sibs
  ]
]

-- The id, and what is written to `*out_canonical_len`; `none` for -1.
unfoldable pub find_covering_seq_id : ℕ → RadixTree → Option (ℕ × ℕ)
find_covering_seq_id i t = elim (chain i t.nodes) [
  | [] ↦ none
  | a ∷ up ↦ elim (covering_ancestor (a ∷ up)) [
    | some r ↦ some r
    | none ↦ covering_children (a ∷ up) (children_of i t.nodes)
  ]
]
