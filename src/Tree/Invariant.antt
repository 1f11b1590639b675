-- ===== src/Tree/Invariant.antt =====
-- Well-formedness of the radix tree: the shape that every operation of src/radix_tree.cpp keeps.
pub mod Keys
pub mod Insert
pub mod Prune
pub mod Release
use radixforge.Common.{ℕ, ◌≤◌, ◌<◌, ◌≡◌, true, false, [], length}
use radixforge.Tree.Node.{Children, nil, child, RadixTree, root_address, null, has_key, total, at}
use radixforge.Tree.Prefix.{front}

-- A child stands under the first of its tokens, of which it has one or more, and a key occurs once.
abbrev pub IsKeyed : Children → Type 0
IsKeyed nil = Unit {0}
IsKeyed (child k n ks sibs) =
    (front n.tokens ≡ k)
    × (0 < length n.tokens)
    × (has_key k sibs ≡ false)
    × IsKeyed ks
    × IsKeyed sibs

-- One root, with no tokens and the root's address.
abbrev pub IsRooted : Children → Type 0
IsRooted nil = ⊥
IsRooted (child k root ks sibs) =
    (root.address ≡ root_address) × (root.tokens ≡ []) × IsKeyed ks × (sibs ≡ nil)

-- Addresses are distinct, not null, and below the next one.
pub record IsWellFormed (t : RadixTree) : Type 0 where
  pub rooted : IsRooted t.nodes
  pub one : (i : ℕ) → total (at i) t.nodes ≤ 1
  pub unused : (i : ℕ) → t.next_address ≤ i → total (at i) t.nodes ≡ 0
  pub not_null : total (at null) t.nodes ≡ 0
