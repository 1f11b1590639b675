-- ===== src/Tree/Path/Insert.antt =====
-- The tokens that `insert` of src/radix_tree.cpp puts into the tree.
use mathlib.Core.List.{append-nil, append_assoc}
use radixforge.Common.{
  ℕ, ◌≡◌, refl, sym, ap, ◌∙◌, inl, inr, false, List, [], ◌∷◌, ◌++◌, some, arith, ◌==◌, Bool-cases,
  Option-cases, ℕ_discrete, add64,
}
use radixforge.Tree.Node.{
  RadixNode, Children, nil, child, RadixTree, new_node, has_key, total, at, set_child, add_child,
}
use radixforge.Tree.Total.{IsClearAt, add_child-absent}
use radixforge.Tree.Prefix.{PrefixMatch, find_prefix_locked, add_leaf, touch, insert}
use radixforge.Tree.Invariant.{IsWellFormed}
use radixforge.Tree.Invariant.Insert.{
  Reached, find_prefix_locked-IsWellFormed, find_prefix_locked-Reached,
}
use radixforge.Tree.Invariant.Insert.Leaf.{tick-IsWellFormed}
use radixforge.Tree.Path.{find_prefix_locked-path, path, path-absent, path-modify}

path-set_child :
    (fresh key : ℕ) (leaf : RadixNode) (F : Children)
    → leaf.address ≡ fresh
    → total (at fresh) F ≡ 0
    → has_key key F ≡ false
    → path fresh (set_child key leaf F) ≡ some leaf.tokens
unfolding path set_child has_key total
path-set_child fresh key leaf nil a new free = ground arith
path-set_child fresh key leaf (child k n ks sibs) a new free =
    ground (arith, path-set_child fresh key leaf sibs, path-absent fresh ks)

-- A new leaf stands for the tokens of its parent and its own.
path-add_child :
    (fresh i key : ℕ) (leaf : RadixNode) (F : Children) {ps : List ℕ}
    → leaf.address ≡ fresh
    → total (at fresh) F ≡ 0
    → total (at i) F ≡ 1
    → IsClearAt i key F
    → path i F ≡ some ps
    → path fresh (add_child i key leaf F) ≡ some (ps ++ leaf.tokens)
unfolding path add_child total
path-add_child fresh i key leaf nil a new present clear e = cc
path-add_child fresh i key leaf (child k n ks sibs) {ps} a new present clear e =
    elim (Bool-cases (n.address == i)) [
      | inl here ↦ ground (arith, add_child-absent i key leaf ks, path-set_child fresh key leaf ks)
      | inr there ↦ elim (ℕ_discrete (total (at i) ks) 0) [
        | yes beside ↦ ground (
          arith,
          path-absent i ks,
          path-absent fresh ks,
          add_child-absent i key leaf ks,
          path-add_child fresh i key leaf sibs {ps = ps},
        )
        | no below ↦ elim (Option-cases (path i ks)) [
          | inl nowhere ↦ absurd (ground (arith, path-absent i sibs))
          | inr (qs, found) ↦ ground (
            arith,
            path-absent i sibs,
            path-add_child fresh i key leaf ks {ps = qs},
            append_assoc n.tokens qs leaf.tokens,
          )
        ]
      ]
    ]

-- The node for the prompt, with its leaf, stands for the whole of it.
add_leaf-path :
    (tick : ℕ) (t : RadixTree) (m : PrefixMatch) (ps : List ℕ)
    → IsWellFormed t
    → Reached t m
    → path m.node t.nodes ≡ some ps
    → let (t', m') = add_leaf tick t m in path m'.node t'.nodes ≡ some (ps ++ m.remaining)
unfolding add_leaf
add_leaf-path tick t m ps v r e = go m.remaining refl
  where
    go :
        (ts : List ℕ)
        → m.remaining ≡ ts
        → let (t', m') = add_leaf tick t m in path m'.node t'.nodes ≡ some (ps ++ m.remaining)
    go [] none_left = rw (none_left, add_leaf) (e ∙ ap some (sym (append-nil ps)))
    go (x ∷ xs) some_left =
        rw (some_left, add_leaf)
          (path-add_child t.next_address m.node x (new_node t.next_address (x ∷ xs) tick) t.nodes
            refl (v.unused t.next_address (omega arith)) r.present (r.clear x xs some_left) e)

pub found-path :
    (t : RadixTree) (ts : List ℕ) (tick : ℕ)
    → IsWellFormed t
    → let (t1, found) = find_prefix_locked t ts in
      let (t', m) = add_leaf tick t1 found in path m.node t'.nodes ≡ some ts
found-path t ts tick v =
    let (ps, e, r) = find_prefix_locked-path t ts v in
    let (t1, found) = find_prefix_locked t ts in
    add_leaf-path tick t1 found ps (find_prefix_locked-IsWellFormed t ts v)
      (find_prefix_locked-Reached t ts v) e
    ∙ ap some r

-- After `insert` into a well-formed tree the returned node stands for exactly the inserted tokens.
pub path-insert :
    (t : RadixTree) (prompt : List ℕ)
    → IsWellFormed t
    → let (t', m) = insert t prompt in path m.node t'.nodes ≡ some prompt
unfolding insert find_prefix_locked
path-insert t prompt v =
    let tick = add64 t.tick 1 in
    path-modify _ _ (touch tick) _ (λ n. (refl, refl))
    ∙ found-path (record t { tick = tick }) prompt tick (tick-IsWellFormed t tick v)
