-- ===== src/Tree/Invariant/Release.antt =====
-- `release` and `evict` keep the tree well formed; the sequences that `evict` returns are those
-- that leave the tree.
use radixforge.Common.{
  ℕ, ◌+◌, ◌≡◌, refl, ap, inl, inr, some, arith, count, Bool-cases, Option-cases,
}
use radixforge.Tree.Node.{RadixNode, RadixTree, total, at, owns, modify, get}
use radixforge.Tree.Total.{total-modify, total-modify_same, total-get, get-at, only}
use radixforge.Tree.Evict.{release, drop_reference, is_idle_owner, clear_sequences, evict}
use radixforge.Tree.Invariant.{IsWellFormed}
use radixforge.Tree.Invariant.Insert.Leaf.{modify-IsWellFormed}
use radixforge.Tree.Invariant.Keys.{modify-IsRooted}
use radixforge.Tree.Invariant.Prune.{IsWeightless, prune-Keeps, prune-IsWellFormed}

pub release-IsWellFormed : (i : ℕ) (t : RadixTree) → IsWellFormed t → IsWellFormed (release i t)
unfolding release
release-IsWellFormed i t v = ground (
  arith,
  prune-IsWellFormed i (record t { nodes = modify i drop_reference t.nodes })
      (modify-IsWellFormed i drop_reference t (λ n. (refl, refl)) v),
  v,
)

pub evict-IsWellFormed : (i : ℕ) (t : RadixTree) → IsWellFormed t → IsWellFormed (evict i t).0
unfolding evict
evict-IsWellFormed i t v = ground (
  arith,
  prune-IsWellFormed i (record t { nodes = modify i clear_sequences t.nodes })
      (modify-IsWellFormed i clear_sequences t (λ n. (refl, refl)) v),
  v,
)

-- A node that is there is there once.
pub at-one :
    (i : ℕ) (t : RadixTree) {n : RadixNode}
    → IsWellFormed t
    → get i t.nodes ≡ some n
    → total (at i) t.nodes ≡ 1
at-one i t {n} v e =
    ground (arith, v.one i, total-get (at i) i t.nodes {n = n}, get-at i t.nodes {n = n})

-- Weights that neither counts references nor sequences apart are untouched by `release`.
pub total-release :
    (w : RadixNode → ℕ) (i : ℕ) (t : RadixTree)
    → IsWellFormed t
    → IsWeightless w
    → ((n : RadixNode) → w (drop_reference n) ≡ w n)
    → total w (release i t).nodes ≡ total w t.nodes
unfolding release
total-release w i t v weightless same =
    let rooted = modify-IsRooted i drop_reference t.nodes (λ n. (refl, refl)) v.rooted in
    ground (
      arith,
      (prune-Keeps w i (modify i drop_reference t.nodes) weightless rooted).0,
      total-modify_same w i drop_reference t.nodes same,
    )

owns-IsWeightless : (s : ℕ) → IsWeightless (owns s)
unfolding count
owns-IsWeightless s n idle empty = ap (count s) empty

-- `release` takes no sequence away.
pub owns-release :
    (s i : ℕ) (t : RadixTree)
    → IsWellFormed t
    → total (owns s) (release i t).nodes ≡ total (owns s) t.nodes
owns-release s i t v = total-release (owns s) i t v (owns-IsWeightless s) (λ n. refl)

-- Each sequence that a well-formed tree owned, it owns still or `evict` has returned it.
pub owns-evict :
    (s i : ℕ) (t : RadixTree)
    → IsWellFormed t
    → let (t', evicted) = evict i t in
      total (owns s) t'.nodes + count s evicted ≡ total (owns s) t.nodes
unfolding evict count
owns-evict s i t v = elim (Option-cases (get i t.nodes)) [
  | inl missing ↦ rw (missing, evict) (omega arith)
  | inr (n, found) ↦ elim (Bool-cases (is_idle_owner n)) [
    | inl idle ↦
        let rooted = modify-IsRooted i clear_sequences t.nodes (λ m. (refl, refl)) v.rooted in
        rw (found, evict)
          (rw idle (
            omega (
              arith,
              (prune-Keeps (owns s) i (modify i clear_sequences t.nodes) (owns-IsWeightless s)
                  rooted).0,
              total-modify (owns s) i clear_sequences t.nodes (at-one i t v found) found,
            )))
    | inr busy ↦ rw (found, evict) (rw busy (omega arith))
  ]
]

-- How often the node at an address is referenced: 0 if there is none.
abbrev pub references : ℕ → RadixNode → ℕ
references i = only i (λ n. n.ref_count)

references-IsWeightless : (i : ℕ) → IsWeightless (references i)
references-IsWeightless i n idle empty = ground arith

-- No reference is lost by an eviction, so that a referenced node stays in the tree.
pub references-evict :
    (j i : ℕ) (t : RadixTree)
    → IsWellFormed t
    → total (references j) (evict i t).0.nodes ≡ total (references j) t.nodes
unfolding evict
references-evict j i t v =
    let rooted = modify-IsRooted i clear_sequences t.nodes (λ m. (refl, refl)) v.rooted in
    ground (
      arith,
      (prune-Keeps (references j) i (modify i clear_sequences t.nodes) (references-IsWeightless j)
          rooted).0,
      total-modify_same (references j) i clear_sequences t.nodes (λ n. refl),
    )
