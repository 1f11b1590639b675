-- ===== src/Tree/Total.antt =====
-- Sums over the nodes of the tree, under each way of changing it.
use radixforge.Common.{
  ℕ, ◌+◌, ◌≤◌, ◌<◌, ◌≡◌, refl, inl, inr, false, none, some, arith, ◌==◌, if◌then◌else◌, Bool-cases,
  Option-cases, ℕ_discrete,
}
use radixforge.Tree.Node.{
  RadixNode, Children, nil, child, get, modify, has_key, set_child, add_child, total, at,
}

-- An address that no node has is not found, and a change there changes nothing.
pub modify-absent :
    (i : ℕ) (f : RadixNode → RadixNode) (F : Children) → total (at i) F ≡ 0 → modify i f F ≡ F
unfolding modify total
modify-absent i f nil h = refl
modify-absent i f (child k n ks sibs) h =
    ground (arith, modify-absent i f ks, modify-absent i f sibs)

pub get-absent : (i : ℕ) (F : Children) → total (at i) F ≡ 0 → get i F ≡ none
unfolding get total
get-absent i nil h = refl
get-absent i (child k n ks sibs) h = ground (arith, get-absent i ks, get-absent i sibs)

pub get-at : (i : ℕ) (F : Children) {n : RadixNode} → get i F ≡ some n → n.address ≡ i
unfolding get
get-at i nil e = cc
get-at i (child k m ks sibs) {n} e = ground (arith, get-at i ks {n = n}, get-at i sibs {n = n})

pub get-present : (i : ℕ) (F : Children) → 0 < total (at i) F → (n : RadixNode) × (get i F ≡ some n)
unfolding get total
get-present i nil h = absurd (omega arith)
get-present i (child k n ks sibs) h = elim (Bool-cases (n.address == i)) [
  | inl here ↦ (n, rw here)
  | inr there ↦ elim (Option-cases (get i ks)) [
    | inr (m, below) ↦ (m, ground arith)
    | inl nowhere ↦ elim (ℕ_discrete (total (at i) ks) 0) [
      | yes beside ↦ let (m, e) = get-present i sibs (ground arith) in (m, ground arith)
      | no below ↦ absurd (ground (arith, get-present i ks (omega arith)))
    ]
  ]
]

pub add_child-absent :
    (i key : ℕ) (leaf : RadixNode) (F : Children) → total (at i) F ≡ 0 → add_child i key leaf F ≡ F
unfolding add_child total
add_child-absent i key leaf nil h = refl
add_child-absent i key leaf (child k n ks sibs) h =
    ground (arith, add_child-absent i key leaf ks, add_child-absent i key leaf sibs)

module _ (w : RadixNode → ℕ) where
  -- The change of one node changes the sum by its weight alone.
  pub total-modify :
      (i : ℕ) (f : RadixNode → RadixNode) (F : Children) {n : RadixNode}
      → total (at i) F ≡ 1
      → get i F ≡ some n
      → total w (modify i f F) + w n ≡ total w F + w (f n)
  unfolding modify get total
  total-modify i f nil h e = cc
  total-modify i f (child k m ks sibs) {n} h e = elim (Bool-cases (m.address == i)) [
    | inl here ↦ rw here (ground (arith, modify-absent i f ks, modify-absent i f sibs))
    | inr there ↦ ground (
      arith,
      get-absent i ks,
      get-absent i sibs,
      modify-absent i f ks,
      modify-absent i f sibs,
      total-modify i f ks {n = n},
      total-modify i f sibs {n = n},
    )
  ]

  -- A change that keeps every weight keeps the sum.
  pub total-modify_same :
      (i : ℕ) (f : RadixNode → RadixNode) (F : Children)
      → ((n : RadixNode) → w (f n) ≡ w n)
      → total w (modify i f F) ≡ total w F
  unfolding modify total
  total-modify_same i f nil same = refl
  total-modify_same i f (child k m ks sibs) same =
      ground (arith, same m, total-modify_same i f ks same, total-modify_same i f sibs same)

  pub total-set_child :
      (key : ℕ) (leaf : RadixNode) (F : Children)
      → has_key key F ≡ false
      → total w (set_child key leaf F) ≡ total w F + w leaf
  unfolding set_child has_key total
  total-set_child key leaf nil h = omega arith
  total-set_child key leaf (child k n ks sibs) h = ground (arith, total-set_child key leaf sibs)

  -- A node weighs at most as much as the tree.
  pub total-get : (i : ℕ) (F : Children) {n : RadixNode} → get i F ≡ some n → w n ≤ total w F
  unfolding get total
  total-get i nil e = cc
  total-get i (child k m ks sibs) {n} e = elim (Bool-cases (m.address == i)) [
    | inl here ↦ ground arith
    | inr there ↦ ground (arith, total-get i ks {n = n}, total-get i sibs {n = n})
  ]

-- Nodes with the address `i` have no child at `key`.
abbrev pub IsClearAt : ℕ → ℕ → Children → Type 0
IsClearAt i key nil = Unit {0}
IsClearAt i key (child k n ks sibs) =
    (n.address ≡ i → has_key key ks ≡ false) × IsClearAt i key ks × IsClearAt i key sibs

pub absent-IsClearAt : (i key : ℕ) (F : Children) → total (at i) F ≡ 0 → IsClearAt i key F
unfolding total
absent-IsClearAt i key nil h = tt
absent-IsClearAt i key (child k n ks sibs) h = (
  λ e. absurd (ground arith),
  absent-IsClearAt i key ks (omega arith),
  absent-IsClearAt i key sibs (omega arith),
)

pub total-add_child :
    (w : RadixNode → ℕ) (i key : ℕ) (leaf : RadixNode) (F : Children)
    → total (at i) F ≡ 1
    → IsClearAt i key F
    → total w (add_child i key leaf F) ≡ total w F + w leaf
unfolding add_child total
total-add_child w i key leaf nil h c = absurd (omega arith)
total-add_child w i key leaf (child k n ks sibs) h c = elim (Bool-cases (n.address == i)) [
  | inl here ↦ ground (
    arith,
    add_child-absent i key leaf ks,
    add_child-absent i key leaf sibs,
    total-set_child w key leaf ks,
  )
  | inr there ↦ elim (ℕ_discrete (total (at i) ks) 0) [
    | yes none_below ↦
        ground (arith, add_child-absent i key leaf ks, total-add_child w i key leaf sibs)
    | no some_below ↦
        ground (arith, add_child-absent i key leaf sibs, total-add_child w i key leaf ks)
  ]
]

-- The weight of the node at one address.
abbrev pub only : ℕ → (RadixNode → ℕ) → RadixNode → ℕ
only i w n = if n.address == i then w n else 0

pub total-only-absent :
    (i : ℕ) (w : RadixNode → ℕ) (F : Children) → total (at i) F ≡ 0 → total (only i w) F ≡ 0
unfolding total
total-only-absent i w nil h = refl
total-only-absent i w (child k n ks sibs) h =
    ground (arith, total-only-absent i w ks, total-only-absent i w sibs)

pub total-only :
    (i : ℕ) (w : RadixNode → ℕ) (F : Children) {n : RadixNode}
    → total (at i) F ≡ 1
    → get i F ≡ some n
    → total (only i w) F ≡ w n
unfolding total get
total-only i w nil h e = cc
total-only i w (child k m ks sibs) {n} h e = elim (Bool-cases (m.address == i)) [
  | inl here ↦ ground (arith, total-only-absent i w ks, total-only-absent i w sibs)
  | inr there ↦ ground (
    arith,
    get-absent i ks,
    get-absent i sibs,
    total-only-absent i w ks,
    total-only-absent i w sibs,
    total-only i w ks {n = n},
    total-only i w sibs {n = n},
  )
]
