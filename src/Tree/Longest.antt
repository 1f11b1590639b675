-- ===== src/Tree/Longest.antt =====
-- The longest common prefix of a prompt and any node, by comparing it with all of them: what
-- `find_prefix_locked` of src/radix_tree.cpp finds along one branch.
pub mod Inspect
use mathlib.Core.List.{append_assoc}
use radixforge.Common.{
  ℕ, ◌+◌, ◌≤◌, ◌<◌, max, ◌≡◌, refl, sym, ap, ◌∙◌, inl, inr, false, List, [], ◌∷◌, ◌++◌, arith, ◌==◌,
  ltb, length, drop, length-append, Bool-cases,
}
use radixforge.Tree.Node.{RadixNode, Children, nil, child, RadixTree, has_key}
use radixforge.Tree.Prefix.{match_len, front, descend, descend_root, find_prefix_locked}
use radixforge.Tree.Prefix.Nodes.{match_len-le}
use radixforge.Tree.Path.{match_len-whole}
use radixforge.Tree.Invariant.Keys.{match_len-pos}
use radixforge.Tree.Invariant.{IsKeyed, IsRooted, IsWellFormed}
use radixforge.Tree.Inspect.{
  PrefixAvailability, consider_availability, no_availability, inspect_children, inspect_nodes,
  inspect_prefix,
}

-- Over all nodes below a node with the tokens `pre` from the root.
unfoldable pub longest_common : List ℕ → Children → List ℕ → ℕ
longest_common pre nil ts = 0
longest_common pre (child k n ks sibs) ts =
    max (match_len (pre ++ n.tokens) ts)
      (max (longest_common (pre ++ n.tokens) ks ts) (longest_common pre sibs ts))

match_len-append :
    (pre xs ts : List ℕ) → match_len (pre ++ xs) (pre ++ ts) ≡ length pre + match_len xs ts
unfolding match_len
match_len-append [] xs ts = omega arith
match_len-append (p ∷ pre) xs ts = ground (arith, match_len-append pre xs ts)

match_len-diverged :
    (xs ys ts : List ℕ) → match_len xs ts < length xs → match_len (xs ++ ys) ts ≡ match_len xs ts
unfolding match_len
match_len-diverged [] ys ts h = absurd (omega arith)
match_len-diverged (x ∷ xs) ys [] h = refl
match_len-diverged (x ∷ xs) ys (t ∷ ts) h = ground (arith, match_len-diverged xs ys ts)

longest_common-le :
    (pre : List ℕ) (F : Children) (ts : List ℕ) → longest_common pre F ts ≤ length ts
unfolding longest_common
longest_common-le pre nil ts = omega arith
longest_common-le pre (child k n ks sibs) ts = omega (
  arith,
  match_len-le (pre ++ n.tokens) ts,
  longest_common-le (pre ++ n.tokens) ks ts,
  longest_common-le pre sibs ts,
)

-- Below a node where the prompt has left the branch nothing more is in common.
longest_common-diverged :
    (pre : List ℕ) (F : Children) (ts : List ℕ)
    → match_len pre ts < length pre
    → longest_common pre F ts ≤ match_len pre ts
unfolding longest_common
longest_common-diverged pre nil ts h = omega arith
longest_common-diverged pre (child k n ks sibs) ts h =
    let here = match_len-diverged pre n.tokens ts h in
    omega (
      arith,
      here,
      length-append pre n.tokens,
      longest_common-diverged (pre ++ n.tokens) ks ts
          (omega (arith, here, length-append pre n.tokens)),
      longest_common-diverged pre sibs ts h,
    )

match_len-other :
    (xs : List ℕ) (t : ℕ) (ts : List ℕ)
    → 0 < length xs
    → (front xs == t) ≡ false
    → match_len xs (t ∷ ts) ≡ 0
unfolding match_len
match_len-other [] t ts h e = refl
match_len-other (x ∷ xs) t ts h e = ground arith

-- A child under another key shares nothing more with the prompt, nor does what is below it.
longest_common-other :
    (pre : List ℕ) (k : ℕ) (n : RadixNode) (ks : Children) (t : ℕ) (ts : List ℕ)
    → front n.tokens ≡ k
    → 0 < length n.tokens
    → (k == t) ≡ false
    → (match_len (pre ++ n.tokens) (pre ++ (t ∷ ts)) ≡ length pre)
      × (longest_common (pre ++ n.tokens) ks (pre ++ (t ∷ ts)) ≤ length pre)
longest_common-other pre k n ks t ts e l other =
    let here : match_len (pre ++ n.tokens) (pre ++ (t ∷ ts)) ≡ length pre =
      ground (arith, match_len-append pre n.tokens (t ∷ ts), match_len-other n.tokens t ts) in
    (
      here,
      ground (
        arith,
        length-append pre n.tokens,
        longest_common-diverged (pre ++ n.tokens) ks (pre ++ (t ∷ ts)),
      ),
    )

longest_common-missed :
    (pre : List ℕ) (F : Children) (t : ℕ) (ts : List ℕ)
    → IsKeyed F
    → has_key t F ≡ false
    → longest_common pre F (pre ++ (t ∷ ts)) ≤ length pre
unfolding longest_common has_key
longest_common-missed pre nil t ts h free = omega arith
longest_common-missed pre (child k n ks sibs) t ts (e, l, u, below, beside) free =
    ground (arith, longest_common-other pre k n ks t ts, longest_common-missed pre sibs t ts beside)

-- The branch that a whole node continues, measured from the node.
longest_common-whole :
    (pre : List ℕ) (n : RadixNode) (ks : Children) (t : ℕ) (ts : List ℕ)
    → ltb (match_len n.tokens (t ∷ ts)) (length n.tokens) ≡ false
    → longest_common (pre ++ n.tokens) ks ((pre ++ n.tokens) ++ drop (length n.tokens) (t ∷ ts))
      ≡ longest_common (pre ++ n.tokens) ks (pre ++ (t ∷ ts))
longest_common-whole pre n ks t ts whole = ap (longest_common (pre ++ n.tokens) ks) (
    append_assoc pre n.tokens (drop (length n.tokens) (t ∷ ts))
    ∙ ap (λ rest. pre ++ rest) (match_len-whole n.tokens (t ∷ ts) whole))

descend-longest_common :
    (fresh here : ℕ) (pre : List ℕ) (F : Children) (ts : List ℕ)
    → IsKeyed F
    → (descend fresh here (length pre) F ts).matched_total
      ≡ max (length pre) (longest_common pre F (pre ++ ts))
unfolding descend longest_common
descend-longest_common fresh here pre nil ts h = omega arith
descend-longest_common fresh here pre (child k n ks sibs) [] h =
    omega (arith, longest_common-le pre (child k n ks sibs) (pre ++ []), length-append pre [])
descend-longest_common fresh here pre (child k n ks sibs) (t ∷ ts) (e, l, u, below, beside) =
    elim (Bool-cases (k == t)) [
      | inl hit ↦ elim (Bool-cases (ltb (match_len n.tokens (t ∷ ts)) (length n.tokens))) [
        | inl part ↦ ground (
          arith,
          match_len-append pre n.tokens (t ∷ ts),
          length-append pre n.tokens,
          longest_common-diverged (pre ++ n.tokens) ks (pre ++ (t ∷ ts)),
          longest_common-missed pre sibs t ts beside,
        )
        | inr whole ↦ ground (
          arith,
          match_len-append pre n.tokens (t ∷ ts),
          match_len-le n.tokens (t ∷ ts),
          longest_common-missed pre sibs t ts beside,
          longest_common-whole pre n ks t ts,
          rw (length-append pre n.tokens) at (
              descend-longest_common fresh n.address (pre ++ n.tokens) ks
                (drop (length n.tokens) (t ∷ ts)) below),
        )
      ]
      | inr miss ↦ ground (
        arith,
        longest_common-other pre k n ks t ts,
        descend-longest_common fresh here pre sibs (t ∷ ts) beside,
      )
    ]

pub descend_root-longest_common :
    (fresh : ℕ) (nodes : Children) (ts : List ℕ)
    → IsRooted nodes
    → (descend_root fresh nodes ts).matched_total ≡ longest_common [] nodes ts
unfolding descend_root longest_common match_len
descend_root-longest_common fresh nil ts h = absurd h
descend_root-longest_common fresh (child k root ks sibs) ts (a, e, keyed, s) =
    rw (e, s) (ground (arith, descend-longest_common fresh root.address [] ks ts keyed))

-- `find_prefix_locked`, which follows one branch by its keys, finds the longest prefix that the
-- prompt has in common with any node of a well-formed tree.
pub find_prefix_locked-longest_common :
    (t : RadixTree) (ts : List ℕ)
    → IsWellFormed t
    → (find_prefix_locked t ts).1.matched_tokens ≡ longest_common [] t.nodes ts
unfolding find_prefix_locked
find_prefix_locked-longest_common t ts v =
    descend_root-longest_common t.next_address t.nodes ts v.rooted
