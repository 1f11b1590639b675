-- ===== src/Tree/Prefix/Nodes.antt =====
-- The nodes of the tree under `find_prefix_locked` of src/radix_tree.cpp: which are added, and where
-- the descent ends.
pub mod Free
use radixforge.Common.{
  ℕ, suc, ◌+◌, ◌≤◌, ◌<◌, ◌≡◌, refl, sym, subst, ◌⊎◌, inl, inr, true, false, List, [], ◌∷◌, arith,
  ◌==◌, ltb, length, drop, length-drop, Bool-cases,
}
use radixforge.Tree.Node.{RadixNode, Children, nil, child, new_node, has_key, total, at}
use radixforge.Tree.Total.{IsClearAt, absent-IsClearAt}
use radixforge.Tree.Prefix.{match_len, front, prefix_node, split_children, Descent, descend}

module _ (fresh here matched k : ℕ) (n : RadixNode) (ks sibs : Children) (t : ℕ) (ts : List ℕ) where
  -- The three ways on from a node: the child is split, passed, or not the one that is looked for.
  pub descend-part :
      (k == t) ≡ true
      → ltb (match_len n.tokens (t ∷ ts)) (length n.tokens) ≡ true
      → let len = match_len n.tokens (t ∷ ts) in
        descend fresh here matched (child k n ks sibs) (t ∷ ts) ≡ record {
          children = child k (prefix_node n len) (split_children fresh n ks len) sibs;
          current = n.address;
          matched_total = matched + len;
          rest = drop len (t ∷ ts);
          next_address = suc fresh;
        }
  unfolding descend
  descend-part hit part = ground arith

  pub descend-whole :
      (k == t) ≡ true
      → ltb (match_len n.tokens (t ∷ ts)) (length n.tokens) ≡ false
      → let d =
          descend fresh n.address
            (matched + length n.tokens)
            ks
            (drop (length n.tokens) (t ∷ ts)) in
        descend fresh here matched (child k n ks sibs) (t ∷ ts)
        ≡ record d { children = child k n d.children sibs }
  unfolding descend
  descend-whole hit whole = ground arith

  pub descend-miss :
      (k == t) ≡ false
      → let d = descend fresh here matched sibs (t ∷ ts) in
        descend fresh here matched (child k n ks sibs) (t ∷ ts)
        ≡ record d { children = child k n ks d.children }
  unfolding descend
  descend-miss miss = ground arith

-- The descent makes at most one node, the suffix of a split.
pub descend-next_address :
    (fresh here matched : ℕ) (F : Children) (ts : List ℕ)
    → let d = descend fresh here matched F ts in
      (d.next_address ≡ fresh) ⊎ (d.next_address ≡ suc fresh)
unfolding descend
descend-next_address fresh here matched nil ts = inl refl
descend-next_address fresh here matched (child k n ks sibs) [] = inl refl
descend-next_address fresh here matched (child k n ks sibs) (t ∷ ts) = ground (
  arith,
  descend-next_address fresh here matched sibs (t ∷ ts),
  descend-next_address fresh n.address (matched + length n.tokens) ks
      (drop (length n.tokens) (t ∷ ts)),
)

module _ (w : RadixNode → ℕ) (fresh : ℕ)
    (keep : (n : RadixNode) (len : ℕ) → w (prefix_node n len) ≡ w n) where
  -- What neither a split nor a new suffix changes is the same in sum.
  pub total-descend :
      ((tokens : List ℕ) (tick : ℕ) → w (new_node fresh tokens tick) ≡ 0)
      → (here matched : ℕ) (F : Children) (ts : List ℕ)
      → total w (descend fresh here matched F ts).children ≡ total w F
  unfolding descend total split_children
  total-descend new here matched nil ts = refl
  total-descend new here matched (child k n ks sibs) [] = refl
  total-descend new here matched (child k n ks sibs) (t ∷ ts) =
      let len = match_len n.tokens (t ∷ ts) in
      ground (
        arith,
        keep n len,
        new (drop len n.tokens) n.last_access_tick,
        total-descend new here matched sibs (t ∷ ts),
        total-descend new n.address (matched + length n.tokens) ks
            (drop (length n.tokens) (t ∷ ts)),
      )

-- The new node, if any, has the fresh address.
pub at-descend_fresh :
    (fresh here matched : ℕ) (F : Children) (ts : List ℕ)
    → let d = descend fresh here matched F ts in
      total (at fresh) d.children + fresh ≡ total (at fresh) F + d.next_address
unfolding descend total split_children
at-descend_fresh fresh here matched nil ts = omega arith
at-descend_fresh fresh here matched (child k n ks sibs) [] = omega arith
at-descend_fresh fresh here matched (child k n ks sibs) (t ∷ ts) = ground (
  arith,
  at-descend_fresh fresh here matched sibs (t ∷ ts),
  at-descend_fresh fresh n.address (matched + length n.tokens) ks (drop (length n.tokens) (t ∷ ts)),
)

-- It stops at the node it started from, or at one below.
pub descend-current :
    (fresh here matched : ℕ) (F : Children) (ts : List ℕ)
    → let d = descend fresh here matched F ts in (d.current ≡ here) ⊎ (0 < total (at d.current) F)
unfolding descend total
descend-current fresh here matched nil ts = inl refl
descend-current fresh here matched (child k n ks sibs) [] = inl refl
descend-current fresh here matched (child k n ks sibs) (t ∷ ts) = ground (
  arith,
  descend-current fresh here matched sibs (t ∷ ts),
  descend-current fresh n.address (matched + length n.tokens) ks (drop (length n.tokens) (t ∷ ts)),
)

-- Where it does not leave the node, nothing has been matched.
pub descend-rest_here :
    (fresh here matched : ℕ) (F : Children) (ts : List ℕ)
    → total (at here) F ≡ 0
    → (descend fresh here matched F ts).current ≡ here
    → (descend fresh here matched F ts).rest ≡ ts
unfolding descend total
descend-rest_here fresh here matched nil ts h e = refl
descend-rest_here fresh here matched (child k n ks sibs) [] h e = refl
descend-rest_here fresh here matched (child k n ks sibs) (t ∷ ts) h e = ground (
  arith,
  descend-rest_here fresh here matched sibs (t ∷ ts),
  descend-current fresh n.address (matched + length n.tokens) ks (drop (length n.tokens) (t ∷ ts)),
)

pub match_len-le : (xs ts : List ℕ) → (match_len xs ts ≤ length xs) × (match_len xs ts ≤ length ts)
unfolding match_len
match_len-le [] ts = omega arith
match_len-le (x ∷ xs) [] = omega arith
match_len-le (x ∷ xs) (t ∷ ts) = ground (arith, match_len-le xs ts)

-- Every token of the prompt is counted as matched or left over.
pub descend-matched :
    (fresh here matched : ℕ) (F : Children) (ts : List ℕ)
    → let d = descend fresh here matched F ts in
      d.matched_total + length d.rest ≡ matched + length ts
unfolding descend
descend-matched fresh here matched nil ts = refl
descend-matched fresh here matched (child k n ks sibs) [] = refl
descend-matched fresh here matched (child k n ks sibs) (t ∷ ts) =
    let len = match_len n.tokens (t ∷ ts) in
    ground (
      arith,
      match_len-le n.tokens (t ∷ ts),
      length-drop len (t ∷ ts),
      length-drop (length n.tokens) (t ∷ ts),
      descend-matched fresh here matched sibs (t ∷ ts),
      descend-matched fresh n.address (matched + length n.tokens) ks
          (drop (length n.tokens) (t ∷ ts)),
    )
