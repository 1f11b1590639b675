-- ===== src/Tree/Invariant/Keys.antt =====
-- The keys of the children under each way of changing the tree.
use radixforge.Common.{
  ℕ, zero, suc, ◌+◌, ◌<◌, ◌≡◌, refl, ◌||◌, List, [], ◌∷◌, arith, ◌==◌, length, take, drop,
  length-drop,
}
use radixforge.Tree.Node.{RadixNode, Children, nil, child, has_key, modify, set_child, add_child}
use radixforge.Tree.Prefix.{match_len, front, split_children, descend, descend_root}
use radixforge.Tree.Invariant.{IsKeyed, IsRooted}

pub has_key-modify :
    (key i : ℕ) (f : RadixNode → RadixNode) (F : Children)
    → has_key key (modify i f F) ≡ has_key key F
unfolding has_key modify
has_key-modify key i f nil = refl
has_key-modify key i f (child k n ks sibs) = ground (arith, has_key-modify key i f sibs)

-- A change that leaves a node's tokens alone.
pub modify-IsKeyed :
    (i : ℕ) (f : RadixNode → RadixNode) (F : Children)
    → ((n : RadixNode) → (f n).tokens ≡ n.tokens)
    → IsKeyed F
    → IsKeyed (modify i f F)
unfolding modify
modify-IsKeyed i f nil same h = tt
modify-IsKeyed i f (child k n ks sibs) same (h, l, u, below, beside) = ground (
  arith,
  same n,
  has_key-modify k i f sibs,
  modify-IsKeyed i f ks same below,
  modify-IsKeyed i f sibs same beside,
)

pub has_key-set_child :
    (j key : ℕ) (leaf : RadixNode) (F : Children)
    → has_key j (set_child key leaf F) ≡ (j == key || has_key j F)
unfolding has_key set_child
has_key-set_child j key leaf nil = ground arith
has_key-set_child j key leaf (child k n ks sibs) = ground (arith, has_key-set_child j key leaf sibs)

has_key-add_child :
    (j i key : ℕ) (leaf : RadixNode) (F : Children)
    → has_key j (add_child i key leaf F) ≡ has_key j F
unfolding has_key add_child
has_key-add_child j i key leaf nil = refl
has_key-add_child j i key leaf (child k n ks sibs) =
    ground (arith, has_key-add_child j i key leaf sibs)

module _ (key : ℕ) (leaf : RadixNode) (first : front leaf.tokens ≡ key)
    (some_token : 0 < length leaf.tokens) where
  set_child-IsKeyed : (F : Children) → IsKeyed F → IsKeyed (set_child key leaf F)
  unfolding set_child has_key
  set_child-IsKeyed nil h = ground arith
  set_child-IsKeyed (child k n ks sibs) (h, l, u, below, beside) =
      ground (arith, has_key-set_child k key leaf sibs, set_child-IsKeyed sibs beside)

  pub add_child-IsKeyed : (i : ℕ) (F : Children) → IsKeyed F → IsKeyed (add_child i key leaf F)
  unfolding add_child
  add_child-IsKeyed i nil h = tt
  add_child-IsKeyed i (child k n ks sibs) (h, l, u, below, beside) =
      let below' = add_child-IsKeyed i ks below in
      ground (
        arith,
        has_key-add_child k i key leaf sibs,
        below',
        set_child-IsKeyed (add_child i key leaf ks) below',
        add_child-IsKeyed i sibs beside,
      )

has_key-descend :
    (j fresh here matched : ℕ) (F : Children) (ts : List ℕ)
    → has_key j (descend fresh here matched F ts).children ≡ has_key j F
unfolding has_key descend
has_key-descend j fresh here matched nil ts = refl
has_key-descend j fresh here matched (child k n ks sibs) [] = refl
has_key-descend j fresh here matched (child k n ks sibs) (t ∷ ts) =
    ground (arith, has_key-descend j fresh here matched sibs (t ∷ ts))

-- A child whose key is the next token has that token in common, so that a split keeps it.
pub match_len-pos :
    (xs : List ℕ) (t : ℕ) (ts : List ℕ) → 0 < length xs → front xs ≡ t → 0 < match_len xs (t ∷ ts)
unfolding match_len
match_len-pos [] t ts h e = absurd (omega arith)
match_len-pos (x ∷ xs) t ts h e = ground arith

front-take :
    (m : ℕ) (xs : List ℕ)
    → 0 < m
    → 0 < length xs
    → (front (take m xs) ≡ front xs) × (0 < length (take m xs))
front-take zero xs p h = absurd (omega arith)
front-take (suc m) [] p h = absurd (omega arith)
front-take (suc m) (x ∷ xs) p h = (refl, omega arith)

pub descend-IsKeyed :
    (fresh here matched : ℕ) (F : Children) (ts : List ℕ)
    → IsKeyed F
    → IsKeyed (descend fresh here matched F ts).children
unfolding descend split_children has_key
descend-IsKeyed fresh here matched nil ts h = tt
descend-IsKeyed fresh here matched (child k n ks sibs) [] h = h
descend-IsKeyed fresh here matched (child k n ks sibs) (t ∷ ts) (e, l, u, below, beside) =
    let len = match_len n.tokens (t ∷ ts) in
    ground (
      arith,
      match_len-pos n.tokens t ts l,
      front-take len n.tokens,
      length-drop len n.tokens,
      has_key-descend k fresh here matched sibs (t ∷ ts),
      descend-IsKeyed fresh here matched sibs (t ∷ ts) beside,
      descend-IsKeyed fresh n.address (matched + length n.tokens) ks
          (drop (length n.tokens) (t ∷ ts)) below,
    )

pub descend_root-IsRooted :
    (fresh : ℕ) (nodes : Children) (ts : List ℕ)
    → IsRooted nodes
    → IsRooted (descend_root fresh nodes ts).children
unfolding descend_root
descend_root-IsRooted fresh nil ts h = h
descend_root-IsRooted fresh (child k root ks sibs) ts (a, e, below, s) =
    (a, e, descend-IsKeyed fresh root.address 0 ks ts below, s)

pub modify-IsRooted :
    (i : ℕ) (f : RadixNode → RadixNode) (nodes : Children)
    → ((n : RadixNode) → ((f n).tokens ≡ n.tokens) × ((f n).address ≡ n.address))
    → IsRooted nodes
    → IsRooted (modify i f nodes)
unfolding modify
modify-IsRooted i f nil same h = h
modify-IsRooted i f (child k root ks sibs) same (a, e, below, s) =
    ground (arith, same root, modify-IsKeyed i f ks (λ n. (same n).0) below)

pub add_child-IsRooted :
    (i key : ℕ) (leaf : RadixNode) (nodes : Children)
    → front leaf.tokens ≡ key
    → 0 < length leaf.tokens
    → IsRooted nodes
    → IsRooted (add_child i key leaf nodes)
unfolding add_child
add_child-IsRooted i key leaf nil first some_token h = h
add_child-IsRooted i key leaf (child k root ks sibs) first some_token (a, e, below, s) =
    let below' = add_child-IsKeyed key leaf first some_token i ks below in
    ground
      (arith, below', set_child-IsKeyed key leaf first some_token (add_child i key leaf ks) below')
