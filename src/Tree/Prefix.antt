-- ===== src/Tree/Prefix.antt =====
-- `find_prefix_locked`, `split_node`, `insert` and `extend_seq_id`'s descent of src/radix_tree.cpp.
pub mod Nodes
use radixforge.Common.{
  ℕ, zero, suc, ◌+◌, ◌%◌, ◌^◌, ◌≡◌, Bool, true, false, List, [], ◌∷◌, ◌==◌, ltb, if◌then◌else◌,
  length, take, drop, add64,
}
use radixforge.Tree.Node.{
  RadixNode, Children, nil, child, RadixTree, null, new_node, modify, add_child,
}

pub record PrefixMatch : Type 0 where
  pub node : ℕ
  pub cache_node : ℕ
  pub matched_tokens : ℕ
  pub remaining : List ℕ

-- The loop that compares a node's tokens with the prompt's.
unfoldable pub match_len : List ℕ → List ℕ → ℕ
match_len [] ts = 0
match_len (x ∷ xs) [] = 0
match_len (x ∷ xs) (t ∷ ts) = if x == t then suc (match_len xs ts) else 0

-- `tokens[0]`; the callers have a non-empty vector.
abbrev pub front : List ℕ → ℕ
front [] = 0
front (x ∷ xs) = x

-- The suffix that `split_node` makes, with the node's former children.
abbrev pub suffix_node : ℕ → RadixNode → ℕ → RadixNode
suffix_node address n split_pos = new_node address (drop split_pos n.tokens) n.last_access_tick

-- `split_node`: the node keeps its sequences and the first `split_pos` tokens.
abbrev pub prefix_node : RadixNode → ℕ → RadixNode
prefix_node n split_pos = record n { tokens = take split_pos n.tokens }

-- Its only child is the suffix, which takes over its children.
unfoldable pub split_children : ℕ → RadixNode → Children → ℕ → Children
split_children address n ks split_pos =
    child (front (drop split_pos n.tokens)) (suffix_node address n split_pos) ks nil

-- The descent of `find_prefix_locked` below one node: the rebuilt children, the loop's variables
-- where it stopped, and the next address.
pub record Descent : Type 0 where
  pub children : Children
  pub current : ℕ
  pub matched_total : ℕ
  pub rest : List ℕ
  pub next_address : ℕ

-- `here` is the node whose children these are, `matched` the tokens matched so far.
unfoldable pub descend : ℕ → ℕ → ℕ → Children → List ℕ → Descent
descend fresh here matched nil ts = record {
  children = nil;
  current = here;
  matched_total = matched;
  rest = ts;
  next_address = fresh;
}
descend fresh here matched (child k n ks sibs) [] = record {
  children = child k n ks sibs;
  current = here;
  matched_total = matched;
  rest = [];
  next_address = fresh;
}
descend fresh here matched (child k n ks sibs) (t ∷ ts) = elim (k == t) [
  | true ↦
      let len = match_len n.tokens (t ∷ ts) in
      elim (ltb len (length n.tokens)) [
        | true ↦ record {
          children = child k (prefix_node n len) (split_children fresh n ks len) sibs;
          current = n.address;
          matched_total = matched + len;
          rest = drop len (t ∷ ts);
          next_address = suc fresh;
        }
        | false ↦
            let below =
              descend fresh n.address (matched + length n.tokens) ks
                (drop (length n.tokens) (t ∷ ts)) in
            record below { children = child k n below.children sibs }
      ]
  | false ↦
      let beside = descend fresh here matched sibs (t ∷ ts) in
      record beside { children = child k n ks beside.children }
]

-- The descent starts at the root.
unfoldable pub descend_root : ℕ → Children → List ℕ → Descent
descend_root fresh nil ts = record {
  children = nil;
  current = null;
  matched_total = 0;
  rest = ts;
  next_address = fresh;
}
descend_root fresh (child k root ks sibs) ts =
    let below = descend fresh root.address 0 ks ts in
    record below { children = child k root below.children sibs }

unfoldable pub find_prefix_locked : RadixTree → List ℕ → RadixTree × PrefixMatch
find_prefix_locked t ts =
    let d = descend_root t.next_address t.nodes ts in
    (
      record t { nodes = d.children; next_address = d.next_address },
      record {
        node = d.current;
        cache_node = d.current;
        matched_tokens = d.matched_total;
        remaining = d.rest;
      },
    )

-- The leaf for unmatched tokens, with the tick given to it. With none left nothing is added.
unfoldable pub add_leaf : ℕ → RadixTree → PrefixMatch → RadixTree × PrefixMatch
add_leaf tick t m = elim m.remaining [
  | [] ↦ (t, m)
  | x ∷ xs ↦ (
    record t {
      nodes = add_child m.node x (new_node t.next_address (x ∷ xs) tick) t.nodes;
      next_address = suc t.next_address;
    },
    record m { node = t.next_address },
  )
]

abbrev pub touch : ℕ → RadixNode → RadixNode
touch tick n = record n { last_access_tick = tick; ref_count = n.ref_count + 1 }

unfoldable pub insert : RadixTree → List ℕ → RadixTree × PrefixMatch
insert t0 prompt =
    let tick = add64 t0.tick 1 in
    let (t, found) = find_prefix_locked (record t0 { tick = tick }) prompt in
    let (t', m) = add_leaf tick t (record found { cache_node = found.node }) in
    (record t' { nodes = modify m.node (touch tick) t'.nodes }, m)
