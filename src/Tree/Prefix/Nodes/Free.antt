-- ===== src/Tree/Prefix/Nodes/Free.antt =====
-- The place of a new leaf in `find_prefix_locked` and `insert` of src/radix_tree.cpp: no child is
-- overwritten.
use radixforge.Common.{
  ℕ, suc, ◌+◌, ◌≤◌, ◌<◌, ◌≡◌, refl, sym, subst, inl, inr, false, List, [], ◌∷◌, arith, ◌==◌, ltb,
  length, drop, Bool-cases,
}
use radixforge.Tree.Node.{RadixNode, Children, nil, child, has_key, total, at}
use radixforge.Tree.Total.{IsClearAt, absent-IsClearAt}
use radixforge.Tree.Prefix.{match_len, front, prefix_node, split_children, Descent, descend}
use radixforge.Tree.Prefix.Nodes.{
  descend-part, descend-whole, descend-miss, descend-current, descend-rest_here,
}

-- Behind the common part the two differ.
match_len-differs :
    (xs ts : List ℕ) (y : ℕ) (ys : List ℕ)
    → match_len xs ts < length xs
    → drop (match_len xs ts) ts ≡ y ∷ ys
    → (front (drop (match_len xs ts) xs) == y) ≡ false
unfolding match_len
match_len-differs [] ts y ys h e = absurd (omega arith)
match_len-differs (x ∷ xs) [] y ys h e = cc
match_len-differs (x ∷ xs) (t ∷ ts) y ys h e = ground (arith, match_len-differs xs ts y ys)

-- Where tokens are left, the node that is reached has no child for the next one.
abbrev pub IsFree : ℕ → Descent → Type 0
IsFree here d =
    (x : ℕ) (xs : List ℕ)
    → d.rest ≡ x ∷ xs
    → (d.current ≡ here → has_key x d.children ≡ false) × IsClearAt d.current x d.children

module _ (fresh here matched k : ℕ) (n : RadixNode) (ks sibs : Children) (t : ℕ) (ts : List ℕ)
    (one : (i : ℕ) → total (at i) (child k n ks sibs) ≤ 1)
    (new : total (at fresh) (child k n ks sibs) ≡ 0)
    (outside : total (at here) (child k n ks sibs) ≡ 0) where
  IsFree-split :
      match_len n.tokens (t ∷ ts) < length n.tokens
      → let len = match_len n.tokens (t ∷ ts) in
        IsFree here (record {
          children = child k (prefix_node n len) (split_children fresh n ks len) sibs;
          current = n.address;
          matched_total = matched + len;
          rest = drop len (t ∷ ts);
          next_address = suc fresh;
        })
  unfolding total split_children has_key
  IsFree-split h x xs e = (
    λ same. absurd (ground (arith, outside)),
    (
      λ _. ground (arith, match_len-differs n.tokens (t ∷ ts) x xs),
      (
        λ same. absurd (ground (arith, new)),
        absent-IsClearAt n.address x ks (ground (arith, one n.address)),
        tt,
      ),
      absent-IsClearAt n.address x sibs (ground (arith, one n.address)),
    ),
  )

  IsFree-below :
      let d =
        descend fresh n.address (matched + length n.tokens) ks (drop (length n.tokens) (t ∷ ts)) in
      IsFree n.address d → IsFree here (record d { children = child k n d.children sibs })
  unfolding total has_key
  IsFree-below free x xs e =
      let d =
        descend fresh n.address (matched + length n.tokens) ks (drop (length n.tokens) (t ∷ ts)) in
      let at_current =
        descend-current fresh n.address (matched + length n.tokens) ks
          (drop (length n.tokens) (t ∷ ts)) in
      (
        λ same. absurd (ground (arith, outside, at_current)),
        (
          λ same. (free x xs e).0 (sym same),
          (free x xs e).1,
          absent-IsClearAt d.current x sibs (ground (arith, one d.current, at_current)),
        ),
      )

  IsFree-beside :
      let d = descend fresh here matched sibs (t ∷ ts) in
      (k == t) ≡ false
      → IsFree here d
      → IsFree here (record d { children = child k n ks d.children })
  unfolding total has_key
  IsFree-beside other free x xs e =
      let d = descend fresh here matched sibs (t ∷ ts) in
      let at_current = descend-current fresh here matched sibs (t ∷ ts) in
      (
        λ same.
            ground
              (arith, (free x xs e).0 same, descend-rest_here fresh here matched sibs (t ∷ ts)),
        (
          λ same. absurd (ground (arith, outside, one d.current, at_current)),
          absent-IsClearAt d.current x ks (ground (arith, outside, one d.current, at_current)),
          (free x xs e).1,
        ),
      )

-- No child of the node that is reached is overwritten.
pub descend-IsFree :
    (fresh here matched : ℕ) (F : Children) (ts : List ℕ)
    → ((i : ℕ) → total (at i) F ≤ 1)
    → total (at fresh) F ≡ 0
    → total (at here) F ≡ 0
    → IsFree here (descend fresh here matched F ts)
unfolding descend total
descend-IsFree fresh here matched nil ts one new outside =
    λ x xs e. (λ _. unfold has_key in refl, tt)
descend-IsFree fresh here matched (child k n ks sibs) [] one new outside = λ x xs e. cc
descend-IsFree fresh here matched (child k n ks sibs) (t ∷ ts) one new outside =
    elim (Bool-cases (k == t)) [
      | inl hit ↦ elim (Bool-cases (ltb (match_len n.tokens (t ∷ ts)) (length n.tokens))) [
        | inl part ↦
            subst (IsFree here) (sym (descend-part fresh here matched k n ks sibs t ts hit part))
              (IsFree-split fresh here matched k n ks sibs t ts one new outside (ground arith))
        | inr whole ↦
            subst (IsFree here) (sym (descend-whole fresh here matched k n ks sibs t ts hit whole))
              (IsFree-below fresh here matched k n ks sibs t ts one new outside (
                descend-IsFree fresh n.address (matched + length n.tokens) ks
                  (drop (length n.tokens) (t ∷ ts)) (λ i. omega (arith, one i)) (omega arith)
                  (ground (arith, one n.address))))
      ]
      | inr miss ↦
          subst (IsFree here) (sym (descend-miss fresh here matched k n ks sibs t ts miss)) (
            IsFree-beside fresh here matched k n ks sibs t ts one new outside miss (
              descend-IsFree fresh here matched sibs (t ∷ ts) (λ i. omega (arith, one i))
                (omega arith) (omega arith)))
    ]
