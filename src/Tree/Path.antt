-- ===== src/Tree/Path.antt =====
-- The tokens from the root of src/radix_tree.cpp down to a node, and what `find_prefix_locked` does to
-- them.
pub mod Insert
use mathlib.Core.Option
use mathlib.Core.List.{append-nil, append_assoc}
use radixforge.Common.{
  ℕ, suc, ◌+◌, ◌≤◌, ◌≡◌, refl, sym, ap, subst, ◌∙◌, ◌⊎◌, inl, inr, false, List, [], ◌∷◌, ◌++◌,
  Option, none, some, arith, ◌==◌, ltb, if◌then◌else◌, length, take, drop, take-append-drop,
  Bool-cases, Option-cases, ℕ_discrete, add64,
}
use radixforge.Tree.Node.{
  RadixNode, Children, nil, child, RadixTree, new_node, or_else, has_key, total, at, modify,
  set_child, add_child,
}
use radixforge.Tree.Total.{IsClearAt, add_child-absent}
use radixforge.Tree.Prefix.{
  PrefixMatch, match_len, prefix_node, split_children, Descent, descend, descend_root,
  find_prefix_locked, add_leaf, touch, insert,
}
use radixforge.Tree.Prefix.Nodes.{
  descend-part, descend-whole, descend-miss, descend-current, descend-rest_here,
}
use radixforge.Tree.Invariant.{IsRooted, IsWellFormed}
use radixforge.Tree.Invariant.Insert.{
  Reached, find_prefix_locked-IsWellFormed, find_prefix_locked-Reached,
}
use radixforge.Tree.Invariant.Insert.Leaf.{tick-IsWellFormed}

unfoldable pub path : ℕ → Children → Option (List ℕ)
path i nil = none
path i (child k n ks sibs) =
    if n.address == i
    then some n.tokens
    else or_else (Option.map (λ ps. n.tokens ++ ps) (path i ks)) (path i sibs)

pub path-absent : (i : ℕ) (F : Children) → total (at i) F ≡ 0 → path i F ≡ none
unfolding path total
path-absent i nil h = refl
path-absent i (child k n ks sibs) h = ground (arith, path-absent i ks, path-absent i sibs)

pub path-modify :
    (i j : ℕ) (f : RadixNode → RadixNode) (F : Children)
    → ((n : RadixNode) → ((f n).tokens ≡ n.tokens) × ((f n).address ≡ n.address))
    → path i (modify j f F) ≡ path i F
unfolding path modify
path-modify i j f nil same = refl
path-modify i j f (child k n ks sibs) same =
    ground (arith, same n, path-modify i j f ks same, path-modify i j f sibs same)

match_len-take : (xs ts : List ℕ) → take (match_len xs ts) xs ≡ take (match_len xs ts) ts
unfolding match_len
match_len-take [] ts = refl
match_len-take (x ∷ xs) [] = refl
match_len-take (x ∷ xs) (t ∷ ts) = ground (arith, match_len-take xs ts)

-- The common part covers the node's tokens where it is as long.
pub match_len-whole :
    (xs ts : List ℕ) → ltb (match_len xs ts) (length xs) ≡ false → xs ++ drop (length xs) ts ≡ ts
unfolding match_len
match_len-whole [] ts h = refl
match_len-whole (x ∷ xs) [] h = ground arith
match_len-whole (x ∷ xs) (t ∷ ts) h = ground (arith, match_len-whole xs ts)

-- The tokens of the node that is reached are those that were matched.
abbrev pub IsAlong : ℕ → List ℕ → Descent → Type 0
IsAlong here ts d =
    ((d.current ≡ here) × (d.rest ≡ ts))
    ⊎ ((ps : List ℕ) × (path d.current d.children ≡ some ps) × (ps ++ d.rest ≡ ts))

module _ (fresh here matched k : ℕ) (n : RadixNode) (ks sibs : Children) (t : ℕ) (ts : List ℕ)
    (one : (i : ℕ) → total (at i) (child k n ks sibs) ≤ 1)
    (outside : total (at here) (child k n ks sibs) ≡ 0) where
  IsAlong-part : IsAlong here (t ∷ ts) (record {
    children =
        child k
          (prefix_node n (match_len n.tokens (t ∷ ts)))
          (split_children fresh n ks (match_len n.tokens (t ∷ ts)))
          sibs;
    current = n.address;
    matched_total = matched + match_len n.tokens (t ∷ ts);
    rest = drop (match_len n.tokens (t ∷ ts)) (t ∷ ts);
    next_address = suc fresh;
  })
  unfolding path
  IsAlong-part = inr (
    take (match_len n.tokens (t ∷ ts)) n.tokens,
    ground arith,
    rw (match_len-take n.tokens (t ∷ ts)) (take-append-drop (match_len n.tokens (t ∷ ts)) (t ∷ ts)),
  )

  IsAlong-whole :
      let d =
        descend fresh n.address (matched + length n.tokens) ks (drop (length n.tokens) (t ∷ ts)) in
      ltb (match_len n.tokens (t ∷ ts)) (length n.tokens) ≡ false
      → IsAlong n.address (drop (length n.tokens) (t ∷ ts)) d
      → IsAlong here (t ∷ ts) (record d { children = child k n d.children sibs })
  unfolding path total
  IsAlong-whole whole (inl (e, r)) =
      inr (n.tokens, rw e (ground arith), rw r (match_len-whole n.tokens (t ∷ ts) whole))
  IsAlong-whole whole (inr (ps, e, r)) =
      let rest = drop (length n.tokens) (t ∷ ts) in
      let matched' = matched + length n.tokens in
      elim (descend-current fresh n.address matched' ks rest) [
        | inl same ↦ inr (
          n.tokens,
          rw same (ground arith),
          rw
              (descend-rest_here fresh n.address matched' ks rest (ground (arith, one n.address))
                same)
              (match_len-whole n.tokens (t ∷ ts) whole),
        )
        | inr below ↦ inr (
          n.tokens ++ ps,
          ground (arith, one (descend fresh n.address matched' ks rest).current),
          append_assoc n.tokens ps (descend fresh n.address matched' ks rest).rest
              ∙ rw r (match_len-whole n.tokens (t ∷ ts) whole),
        )
      ]

  IsAlong-miss :
      let d = descend fresh here matched sibs (t ∷ ts) in
      IsAlong here (t ∷ ts) d
      → IsAlong here (t ∷ ts) (record d { children = child k n ks d.children })
  unfolding path total
  IsAlong-miss (inl here_still) = inl here_still
  IsAlong-miss (inr (ps, e, r)) =
      let d = descend fresh here matched sibs (t ∷ ts) in
      elim (descend-current fresh here matched sibs (t ∷ ts)) [
        | inl same ↦
            inl (same, descend-rest_here fresh here matched sibs (t ∷ ts) (omega arith) same)
        | inr below ↦ inr (ps, ground (arith, one d.current, path-absent d.current ks), r)
      ]

pub descend-IsAlong :
    (fresh here matched : ℕ) (F : Children) (ts : List ℕ)
    → ((i : ℕ) → total (at i) F ≤ 1)
    → total (at here) F ≡ 0
    → IsAlong here ts (descend fresh here matched F ts)
unfolding descend total
descend-IsAlong fresh here matched nil ts one outside = inl (refl, refl)
descend-IsAlong fresh here matched (child k n ks sibs) [] one outside = inl (refl, refl)
descend-IsAlong fresh here matched (child k n ks sibs) (t ∷ ts) one outside =
    elim (Bool-cases (k == t)) [
      | inl hit ↦ elim (Bool-cases (ltb (match_len n.tokens (t ∷ ts)) (length n.tokens))) [
        | inl part ↦
            subst (IsAlong here (t ∷ ts))
              (sym (descend-part fresh here matched k n ks sibs t ts hit part))
              (IsAlong-part fresh here matched k n ks sibs t ts one outside)
        | inr whole ↦
            subst (IsAlong here (t ∷ ts))
              (sym (descend-whole fresh here matched k n ks sibs t ts hit whole))
              (IsAlong-whole fresh here matched k n ks sibs t ts one outside whole (
                descend-IsAlong fresh n.address (matched + length n.tokens) ks
                  (drop (length n.tokens) (t ∷ ts)) (λ i. omega (arith, one i))
                  (ground (arith, one n.address))))
      ]
      | inr miss ↦
          subst (IsAlong here (t ∷ ts))
            (sym (descend-miss fresh here matched k n ks sibs t ts miss))
            (IsAlong-miss fresh here matched k n ks sibs t ts one outside (
              descend-IsAlong fresh here matched sibs (t ∷ ts) (λ i. omega (arith, one i))
                (omega arith)))
    ]

-- The node that `find_prefix_locked` returns stands for the matched part of the prompt.
descend_root-path :
    (fresh : ℕ) (nodes : Children) (ts : List ℕ)
    → IsRooted nodes
    → ((i : ℕ) → total (at i) nodes ≤ 1)
    → let d = descend_root fresh nodes ts in
      (ps : List ℕ) × (path d.current d.children ≡ some ps) × (ps ++ d.rest ≡ ts)
unfolding descend_root path total
descend_root-path fresh nil ts h one = absurd h
descend_root-path fresh (child k root ks sibs) ts (a, e, keyed, s) one =
    let d = descend fresh root.address 0 ks ts in
    let outside : total (at root.address) ks ≡ 0 = ground (arith, one root.address) in
    elim (descend-IsAlong fresh root.address 0 ks ts (λ i. omega (arith, one i)) outside) [
      | inl (here, rest) ↦ ([], ground arith, rest)
      | inr (ps, there, rest) ↦ elim (descend-current fresh root.address 0 ks ts) [
        | inl here ↦ ([], ground arith, descend-rest_here fresh root.address 0 ks ts outside here)
        | inr below ↦ (ps, ground (arith, one d.current), rest)
      ]
    ]

pub find_prefix_locked-path :
    (t : RadixTree) (ts : List ℕ)
    → IsWellFormed t
    → let (t', m) = find_prefix_locked t ts in
      (ps : List ℕ) × (path m.node t'.nodes ≡ some ps) × (ps ++ m.remaining ≡ ts)
unfolding find_prefix_locked
find_prefix_locked-path t ts v = descend_root-path t.next_address t.nodes ts v.rooted v.one
