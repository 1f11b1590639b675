-- ===== src/Tree/Invariant/Insert/Leaf.antt =====
-- The leaf that `insert` and `extend_seq_id` of src/radix_tree.cpp add keeps the tree well formed.
use radixforge.Common.{ℕ, suc, ◌≡◌, refl, ◌∙◌, List, [], ◌∷◌, arith, add64}
use radixforge.Tree.Node.{RadixNode, RadixTree, new_node, null, total, at, modify, add_child}
use radixforge.Tree.Total.{IsClearAt, total-modify_same, total-add_child}
use radixforge.Tree.Prefix.{PrefixMatch, find_prefix_locked, add_leaf, touch, insert}
use radixforge.Tree.Invariant.{IsWellFormed}
use radixforge.Tree.Invariant.Keys.{modify-IsRooted, add_child-IsRooted}
use radixforge.Tree.Invariant.Insert.{
  Reached, find_prefix_locked-IsWellFormed, find_prefix_locked-Reached, root-lt-next_address,
}

-- With a new leaf, which has the next address, the tree stays well formed.
add_child-IsWellFormed :
    (t : RadixTree) (i x : ℕ) (xs : List ℕ) (tick : ℕ)
    → IsWellFormed t
    → total (at i) t.nodes ≡ 1
    → IsClearAt i x t.nodes
    → IsWellFormed (record t {
      nodes = add_child i x (new_node t.next_address (x ∷ xs) tick) t.nodes;
      next_address = suc t.next_address;
    })
add_child-IsWellFormed t i x xs tick v present clear =
    let leaf = new_node t.next_address (x ∷ xs) tick in
    let sums = λ (j : ℕ). total-add_child (at j) i x leaf t.nodes present clear in
    record {
      rooted = add_child-IsRooted i x leaf t.nodes refl (omega arith) v.rooted;
      one = λ j. ground (arith, sums j, v.one j, v.unused j);
      unused = λ j h. ground (arith, sums j, v.unused j);
      not_null = ground (arith, sums 0, v.not_null, root-lt-next_address t v);
    }

pub add_leaf-IsWellFormed :
    (tick : ℕ) (t : RadixTree) (m : PrefixMatch)
    → IsWellFormed t
    → Reached t m
    → IsWellFormed (add_leaf tick t m).0
unfolding add_leaf
add_leaf-IsWellFormed tick t m v r = go m.remaining refl
  where
    go : (ts : List ℕ) → m.remaining ≡ ts → IsWellFormed (add_leaf tick t m).0
    go [] e = rw (e, add_leaf) v
    go (x ∷ xs) e =
        rw (e, add_leaf) (add_child-IsWellFormed t m.node x xs tick v r.present (r.clear x xs e))

-- The node for the prompt is in the tree.
pub add_leaf-present :
    (tick : ℕ) (t : RadixTree) (m : PrefixMatch)
    → IsWellFormed t
    → Reached t m
    → let (t', m') = add_leaf tick t m in total (at m'.node) t'.nodes ≡ 1
unfolding add_leaf
add_leaf-present tick t m v r = go m.remaining refl
  where
    go :
        (ts : List ℕ)
        → m.remaining ≡ ts
        → let (t', m') = add_leaf tick t m in total (at m'.node) t'.nodes ≡ 1
    go [] e = rw (e, add_leaf) r.present
    go (x ∷ xs) e =
        rw (e, add_leaf)
          (ground (
            arith,
            v.unused t.next_address,
            total-add_child (at t.next_address) m.node x (new_node t.next_address (x ∷ xs) tick)
                t.nodes r.present (r.clear x xs e),
          ))

-- A change of a node that keeps its address and its tokens.
pub modify-IsWellFormed :
    (i : ℕ) (f : RadixNode → RadixNode) (t : RadixTree)
    → ((n : RadixNode) → ((f n).tokens ≡ n.tokens) × ((f n).address ≡ n.address))
    → IsWellFormed t
    → IsWellFormed (record t { nodes = modify i f t.nodes })
modify-IsWellFormed i f t same v =
    let sums = λ (j : ℕ). total-modify_same (at j) i f t.nodes (λ n. ground (arith, same n)) in
    record {
      rooted = modify-IsRooted i f t.nodes same v.rooted;
      one = λ j. omega (arith, sums j, v.one j);
      unused = λ j h. omega (arith, sums j, v.unused j);
      not_null = omega (arith, sums null, v.not_null);
    }

-- A new tick does not matter for the shape.
pub tick-IsWellFormed :
    (t : RadixTree) (tick : ℕ) → IsWellFormed t → IsWellFormed (record t { tick = tick })
tick-IsWellFormed t tick v = record {
  rooted = v.rooted;
  one = v.one;
  unused = v.unused;
  not_null = v.not_null;
}

-- What `insert` and `extend_seq_id` share: the prefix is found, and a leaf made for the rest.
module _ (t : RadixTree) (ts : List ℕ) (tick : ℕ) (v : IsWellFormed t) where
  abbrev found_tree : RadixTree
  found_tree = (find_prefix_locked t ts).0

  abbrev found : PrefixMatch
  found = (find_prefix_locked t ts).1

  pub found-IsWellFormed : IsWellFormed (add_leaf tick found_tree found).0
  found-IsWellFormed =
      add_leaf-IsWellFormed tick found_tree found (find_prefix_locked-IsWellFormed t ts v)
        (find_prefix_locked-Reached t ts v)

  pub found-present : let (t', m) = add_leaf tick found_tree found in total (at m.node) t'.nodes ≡ 1
  found-present =
      add_leaf-present tick found_tree found (find_prefix_locked-IsWellFormed t ts v)
        (find_prefix_locked-Reached t ts v)

pub insert-IsWellFormed :
    (t : RadixTree) (prompt : List ℕ) → IsWellFormed t → IsWellFormed (insert t prompt).0
unfolding insert find_prefix_locked
insert-IsWellFormed t prompt v =
    let tick = add64 t.tick 1 in
    modify-IsWellFormed _ (touch tick) _ (λ n. (refl, refl))
      (found-IsWellFormed (record t { tick = tick }) prompt tick (tick-IsWellFormed t tick v))

-- The node that `insert` returns is in the tree.
pub insert-present :
    (t : RadixTree) (prompt : List ℕ)
    → IsWellFormed t
    → let (t', m) = insert t prompt in total (at m.node) t'.nodes ≡ 1
unfolding insert find_prefix_locked
insert-present t prompt v =
    let tick = add64 t.tick 1 in
    total-modify_same (at _) _ (touch tick) _ (λ n. refl)
    ∙ found-present (record t { tick = tick }) prompt tick (tick-IsWellFormed t tick v)
