-- ===== src/Tree/Inspect.antt =====
-- `inspect_prefix`, `inspect_prefix_locked` and `consider_availability` of src/radix_tree.cpp.
use radixforge.Common.{
  ℕ, ◌+◌, min, max, true, false, List, [], ◌∷◌, ◌==◌, ltb, leb, if◌then◌else◌, length, drop,
  is_empty,
}
use radixforge.Tree.Node.{RadixNode, Children, nil, child, RadixTree}
use radixforge.Tree.Prefix.{match_len}

pub record PrefixAvailability : Type 0 where
  pub matched_tokens : ℕ
  pub ready_tokens : ℕ
  pub pending_tokens : ℕ

unfoldable pub consider_availability : RadixNode → ℕ → PrefixAvailability → PrefixAvailability
consider_availability n covered a =
    let cache_coverage = min covered n.canonical_len in
    if leb covered 0 then a else if leb cache_coverage 0 then a else record a {
      ready_tokens =
          if is_empty n.ready_seq_ids then a.ready_tokens else max a.ready_tokens cache_coverage;
      pending_tokens =
          if ltb (length n.ready_seq_ids) (length n.seq_ids)
          then max a.pending_tokens cache_coverage
          else a.pending_tokens;
    }

-- The loop of `inspect_prefix_locked` over the children of the current node; `a.matched_tokens` is
-- its variable `matched`.
unfoldable pub inspect_children : PrefixAvailability → Children → List ℕ → PrefixAvailability
inspect_children a nil ts = a
inspect_children a (child k n ks sibs) [] = a
inspect_children a (child k n ks sibs) (t ∷ ts) = elim (k == t) [
  | true ↦
      let len = match_len n.tokens (t ∷ ts) in
      elim (len == 0) [
        | true ↦ a
        | false ↦
            let matched = a.matched_tokens + len in
            let a' = consider_availability n matched (record a { matched_tokens = matched }) in
            elim (ltb len (length n.tokens)) [
              | true ↦ a'
              | false ↦ inspect_children a' ks (drop len (t ∷ ts))
            ]
      ]
  | false ↦ inspect_children a sibs (t ∷ ts)
]

abbrev pub no_availability : PrefixAvailability
no_availability = record { matched_tokens = 0; ready_tokens = 0; pending_tokens = 0 }

unfoldable pub inspect_nodes : Children → List ℕ → PrefixAvailability
inspect_nodes nil ts = no_availability
inspect_nodes (child k root ks sibs) ts = inspect_children no_availability ks ts

unfoldable pub inspect_prefix : RadixTree → List ℕ → PrefixAvailability
unfolding inspect_nodes
inspect_prefix t ts = inspect_nodes t.nodes ts
