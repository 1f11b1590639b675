-- ===== src/Tree/Longest/Inspect.antt =====
-- `inspect_prefix` of src/radix_tree.cpp against `find_prefix_locked`.
use radixforge.Common.{
  ℕ, ◌+◌, ◌≡◌, refl, sym, ap, ◌∙◌, inl, inr, List, [], ◌∷◌, arith, ltb, length, drop, Bool-cases,
}
use radixforge.Tree.Node.{RadixNode, Children, nil, child, RadixTree}
use radixforge.Tree.Prefix.{match_len, descend, descend_root, find_prefix_locked}
use radixforge.Tree.Prefix.Nodes.{match_len-le}
use radixforge.Tree.Invariant.Keys.{match_len-pos}
use radixforge.Tree.Invariant.{IsKeyed, IsRooted, IsWellFormed}
use radixforge.Tree.Inspect.{
  PrefixAvailability, consider_availability, no_availability, inspect_children, inspect_nodes,
  inspect_prefix,
}
use radixforge.Tree.Longest.{
  descend_root-longest_common, find_prefix_locked-longest_common, longest_common,
}

matched-consider_availability :
    (n : RadixNode) (covered : ℕ) (a : PrefixAvailability)
    → (consider_availability n covered a).matched_tokens ≡ a.matched_tokens
unfolding consider_availability
matched-consider_availability n covered a = ground arith

inspect_children-descend :
    (fresh here : ℕ) (a : PrefixAvailability) (F : Children) (ts : List ℕ)
    → IsKeyed F
    → (inspect_children a F ts).matched_tokens
      ≡ (descend fresh here a.matched_tokens F ts).matched_total
unfolding inspect_children descend
inspect_children-descend fresh here a nil ts h = refl
inspect_children-descend fresh here a (child k n ks sibs) [] h = refl
inspect_children-descend fresh here a (child k n ks sibs) (t ∷ ts) (e, l, u, below, beside) =
    let len = match_len n.tokens (t ∷ ts) in
    let a' =
      consider_availability n (a.matched_tokens + len)
        (record a { matched_tokens = a.matched_tokens + len }) in
    elim (Bool-cases (ltb len (length n.tokens))) [
      | inl part ↦ ground (
        arith,
        match_len-pos n.tokens t ts l,
        matched-consider_availability n (a.matched_tokens + len)
            (record a { matched_tokens = a.matched_tokens + len }),
        inspect_children-descend fresh here a sibs (t ∷ ts) beside,
      )
      | inr whole ↦
          let same : len ≡ length n.tokens = ground (arith, match_len-le n.tokens (t ∷ ts)) in
          let matched : a'.matched_tokens ≡ a.matched_tokens + length n.tokens =
            rw matched-consider_availability (ap (λ (m : ℕ). a.matched_tokens + m) same) in
          ground (
            arith,
            match_len-pos n.tokens t ts l,
            same,
            ap (λ (m : ℕ). drop m (t ∷ ts)) same,
            rw matched at (
                inspect_children-descend fresh n.address a' ks (drop (length n.tokens) (t ∷ ts))
                  below),
            inspect_children-descend fresh here a sibs (t ∷ ts) beside,
          )
    ]

inspect_nodes-longest_common :
    (nodes : Children) (ts : List ℕ)
    → IsRooted nodes
    → (inspect_nodes nodes ts).matched_tokens ≡ longest_common [] nodes ts
unfolding inspect_nodes
inspect_nodes-longest_common nil ts h = absurd h
inspect_nodes-longest_common (child k root ks sibs) ts h =
    inspect_children-descend 0 root.address no_availability ks ts h.2
    ∙ unfold descend_root in descend_root-longest_common 0 (child k root ks sibs) ts h

-- Over a well-formed tree the read-only `inspect_prefix` reports the same length as the
-- `find_prefix_locked` that rebuilds the tree.
pub inspect_prefix-find_prefix_locked :
    (t : RadixTree) (ts : List ℕ)
    → IsWellFormed t
    → (inspect_prefix t ts).matched_tokens ≡ (find_prefix_locked t ts).1.matched_tokens
unfolding inspect_prefix
inspect_prefix-find_prefix_locked t ts v =
    inspect_nodes-longest_common t.nodes ts v.rooted
    ∙ sym (find_prefix_locked-longest_common t ts v)
