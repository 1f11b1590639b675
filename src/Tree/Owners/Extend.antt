-- ===== src/Tree/Owners/Extend.antt =====
-- `extend_seq_id` of src/radix_tree.cpp moves a sequence from one node to another.
use radixforge.Common.{
  ℕ, ◌≤◌, ◌<◌, ◌≡◌, refl, ◌∙◌, inl, inr, List, some, arith, if◌then◌else◌, count, contains-count,
  count-set_insert, count-set_erase, is_empty, add64, Option-cases, ℕ_discrete,
}
use radixforge.Tree.Node.{RadixNode, Children, RadixTree, total, at, owns, modify, get}
use radixforge.Tree.Total.{
  total-modify, total-modify_same, total-get, get-present, only, total-only, total-only-absent,
}
use radixforge.Tree.Prefix.{find_prefix_locked, add_leaf}
use radixforge.Tree.Sequences.{forget_at, adopt_at, cover_at, move_to, move_sequence, extend_seq_id}
use radixforge.Tree.Invariant.{IsWellFormed}
use radixforge.Tree.Invariant.Insert.Leaf.{
  modify-IsWellFormed, tick-IsWellFormed, found-IsWellFormed, found-present,
}
use radixforge.Tree.Invariant.Release.{at-one}
use radixforge.Tree.Owners.{IsStable, owns-IsStable, total-found}

only-IsStable : (i : ℕ) (w : RadixNode → ℕ) → IsStable w → IsStable (only i w)
only-IsStable i w st = record {
  keep = λ n len. ground (arith, st.keep n len);
  new = λ address tokens tick. ground (arith, st.new address tokens tick);
}

-- The node at `i` is there once more after the descent, with the same sequences.
module _ (t : RadixTree) (ts : List ℕ) (tick i s : ℕ) (v : IsWellFormed t) {n : RadixNode}
    (found : get i t.nodes ≡ some n) where
  abbrev grown : Children
  grown = (add_leaf tick (find_prefix_locked t ts).0 (find_prefix_locked t ts).1).0.nodes

  pub found-get :
      0 < count s n.seq_ids
      → (m : RadixNode) × (get i grown ≡ some m)
        × (total (at i) grown ≡ 1)
        × (count s m.seq_ids ≡ count s n.seq_ids)
  found-get held =
      let sum =
        total-found (only i (owns s)) t ts tick (only-IsStable i (owns s) (owns-IsStable s)) v in
      let before = total-only i (owns s) t.nodes (at-one i t v found) found in
      let wf = found-IsWellFormed t ts tick v in
      let here : total (at i) grown ≡ 1 = elim (ℕ_discrete (total (at i) grown) 0) [
        | yes gone ↦ absurd (omega (arith, sum, before, total-only-absent i (owns s) grown gone))
        | no there ↦ omega (arith, wf.one i)
      ] in
      let (m, e) = get-present i grown (omega arith) in
      (m, e, here, omega (arith, sum, before, total-only i (owns s) grown here e))

-- The sequence changes its node, and nothing else its owner.
module _ (y i s len tick : ℕ) (F : Children) (target : ℕ) {m : RadixNode}
    (present : total (at i) F ≡ 1) (found : get i F ≡ some m) (held : count s m.seq_ids ≡ 1)
    (owned : total (owns s) F ≡ 1) (there : total (at target) F ≡ 1) where
  owns-adopt :
      total (owns y) (modify target (adopt_at s len tick) (modify i (forget_at s) F))
      ≡ total (owns y) F
  owns-adopt =
      let left = λ (z : ℕ). total-modify (owns z) i (forget_at s) F present found in
      let erased = λ (z : ℕ). count-set_erase s z m.seq_ids (omega arith) in
      let F' = modify i (forget_at s) F in
      let there' : total (at target) F' ≡ 1 =
        total-modify_same (at target) i (forget_at s) F (λ n. refl) ∙ there in
      let (n, e) = get-present target F' (omega arith) in
      let free : count s n.seq_ids ≡ 0 =
        ground (arith, left s, erased s, total-get (owns s) target F' e) in
      omega (
        arith,
        left y,
        erased y,
        count-set_insert s y n.seq_ids free,
        total-modify (owns y) target (adopt_at s len tick) F' there' e,
      )

owns-move_to :
    (y i s len tick target : ℕ) (t : RadixTree) {m : RadixNode}
    → total (at i) t.nodes ≡ 1
    → get i t.nodes ≡ some m
    → count s m.seq_ids ≡ 1
    → total (owns s) t.nodes ≡ 1
    → total (at target) t.nodes ≡ 1
    → total (owns y) (move_to i s len tick target t).0.nodes ≡ total (owns y) t.nodes
unfolding move_to
owns-move_to y i s len tick target t present found held owned there = ground (
  arith,
  total-modify_same (owns y) i (cover_at len) t.nodes (λ n. refl),
  owns-adopt y i s len (add64 tick 1) t.nodes target present found held owned there,
)

move_to-IsWellFormed :
    (i s len tick target : ℕ) (t : RadixTree)
    → IsWellFormed t
    → IsWellFormed (move_to i s len tick target t).0
unfolding move_to
move_to-IsWellFormed i s len tick target t v =
    let left = modify-IsWellFormed i (forget_at s) t (λ n. (refl, refl)) v in
    ground (
      arith,
      tick-IsWellFormed _ tick (modify-IsWellFormed i (cover_at len) t (λ n. (refl, refl)) v),
      tick-IsWellFormed _ (add64 tick 1)
          (modify-IsWellFormed target (adopt_at s len (add64 tick 1)) _ (λ n. (refl, refl)) left),
    )

owns-move_sequence :
    (y i s : ℕ) (tokens : List ℕ) (len : ℕ) (t : RadixTree) {n : RadixNode}
    → IsWellFormed t
    → get i t.nodes ≡ some n
    → count s n.seq_ids ≡ 1
    → total (owns s) t.nodes ≡ 1
    → total (owns y) (move_sequence i s tokens len t).0.nodes ≡ total (owns y) t.nodes
unfolding move_sequence
owns-move_sequence y i s tokens len t {n} v found held owned =
    let (t1, m1) = find_prefix_locked t tokens in
    let tick = if is_empty m1.remaining then t.tick else add64 t.tick 1 in
    let sums = λ (z : ℕ). total-found (owns z) t tokens tick (owns-IsStable z) v in
    let (m, e, here, same) = found-get t tokens tick i s v found (omega arith) in
    let (t2, m2) = add_leaf tick t1 m1 in
    owns-move_to y i s len tick m2.node t2 here e (omega (arith, same)) (omega (arith, sums s))
      (found-present t tokens tick v)
    ∙ sums y

-- `extend_seq_id` moves a sequence that the tree owns once; it makes none and loses none.
pub owns-extend_seq_id :
    (y i s : ℕ) (tokens : List ℕ) (len : ℕ) (t : RadixTree)
    → IsWellFormed t
    → total (owns s) t.nodes ≤ 1
    → total (owns y) (extend_seq_id i s tokens len t).0.nodes ≡ total (owns y) t.nodes
unfolding extend_seq_id
owns-extend_seq_id y i s tokens len t v once = elim (Option-cases (get i t.nodes)) [
  | inl missing ↦ rw (missing, extend_seq_id) refl
  | inr (n, found) ↦
      rw (found, extend_seq_id)
        (ground (
          arith,
          contains-count s n.seq_ids,
          total-get (owns s) i t.nodes {n = n} found,
          owns-move_sequence y i s tokens len t {n = n} v found,
        ))
]

pub extend_seq_id-IsWellFormed :
    (i s : ℕ) (tokens : List ℕ) (len : ℕ) (t : RadixTree)
    → IsWellFormed t
    → IsWellFormed (extend_seq_id i s tokens len t).0
unfolding extend_seq_id move_sequence
extend_seq_id-IsWellFormed i s tokens len t v =
    let (t1, m1) = find_prefix_locked t tokens in
    let tick = if is_empty m1.remaining then t.tick else add64 t.tick 1 in
    let (t2, m2) = add_leaf tick t1 m1 in
    ground
      (arith, v, move_to-IsWellFormed i s len tick m2.node t2 (found-IsWellFormed t tokens tick v))
