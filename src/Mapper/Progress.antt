-- ===== src/Mapper/Progress.antt =====
-- The eviction loops of src/kv_mapper.cpp end, and what holds where they do.
use radixforge.Common.{
  ℕ, zero, suc, ◌+◌, ◌≤◌, ◌<◌, ◌≡◌, refl, sym, ap, subst, ◌⊎◌, inl, inr, Bool, true, false, List,
  [], ◌∷◌, Option, none, some, arith, ltb, if◌then◌else◌, length, is_empty, Bool-cases,
}
use radixforge.Tree.Node.{RadixNode, RadixTree, get, active_sequence_count, modify}
use radixforge.Tree.Total.{total-modify}
use radixforge.Tree.Evict.{is_idle_owner, find_eviction_candidates, clear_sequences, evict}
use radixforge.Tree.Candidates.{Chooses, find_eviction_candidates-Chooses}
use radixforge.Tree.Invariant.{IsWellFormed}
use radixforge.Tree.Invariant.Keys.{modify-IsRooted}
use radixforge.Tree.Invariant.Prune.{prune-Keeps}
use radixforge.Tree.Invariant.Release.{at-one}
use radixforge.Mapper.State.{KvMapper, kv_cells_used_locked}
use radixforge.Mapper.Eviction.{
  Round, no_candidate, again, done, after_evict, evict_first, evict_round, evict_loop, or_same,
  evict_one_locked, pressure_loop, evict_kv_pressure_locked,
}
use radixforge.Mapper.Pool.{reclaim_all-lem}
use radixforge.Mapper.Pool.Evictions.{evict_one_locked-Evicts}

abbrev pub NoIdleOwner : RadixTree → Type 0
NoIdleOwner t = (i : ℕ) (n : RadixNode) → get i t.nodes ≡ some n → is_idle_owner n ≡ false

evict_idle_lem :
    (i : ℕ) (t : RadixTree) {n : RadixNode}
    → IsWellFormed t
    → get i t.nodes ≡ some n
    → is_idle_owner n ≡ true
    → let (t', evicted) = evict i t in
      (evicted ≡ n.seq_ids)
      × (0 < length evicted)
      × (active_sequence_count t' + length evicted ≡ active_sequence_count t)
unfolding evict active_sequence_count
evict_idle_lem i t {n} v found idle =
    let weight = λ (m : RadixNode). length m.seq_ids in
    let rooted = modify-IsRooted i clear_sequences t.nodes (λ m. (refl, refl)) v.rooted in
    let kept =
      (prune-Keeps weight i (modify i clear_sequences t.nodes) (λ m h e. ap length e) rooted).0 in
    let change = total-modify weight i clear_sequences t.nodes (at-one i t v found) found in
    rw (found, evict)
      (rw idle (refl, nonempty n.seq_ids (ground arith), omega (arith, kept, change)))
  where
    nonempty : (xs : List ℕ) → is_empty xs ≡ false → 0 < length xs
    nonempty [] e = cc
    nonempty (x ∷ xs) e = omega arith

-- One round evicts something, or there is nothing to evict; it never has to be repeated.
abbrev Progress : KvMapper → Round → Type 0
Progress m no_candidate = NoIdleOwner m.tree
Progress m (again m') = ⊥
Progress m (done m') = active_sequence_count m'.tree < active_sequence_count m.tree

after_evict-Progress :
    (m : KvMapper) (tree : RadixTree) (evicted : List ℕ)
    → 0 < length evicted
    → active_sequence_count tree + length evicted ≡ active_sequence_count m.tree
    → Progress m (after_evict evicted (record m { tree = tree }))
unfolding after_evict
after_evict-Progress m tree [] h e = absurd (omega arith)
after_evict-Progress m tree (s ∷ ss) h e =
    rw (reclaim_all-lem 0 (s ∷ ss) (record m { tree = tree })).1 (omega arith)

evict_first-Progress :
    (cs : List RadixNode) (m : KvMapper)
    → IsWellFormed m.tree
    → Chooses m.tree cs
    → Progress m (evict_first cs m)
unfolding evict_first
evict_first-Progress [] m v nobody = nobody
evict_first-Progress (c ∷ cs) m v first =
    let (same, pos, sum) = evict_idle_lem c.address m.tree v first.present first.idle in
    after_evict-Progress m (evict c.address m.tree).0 (evict c.address m.tree).1 pos sum

evict_round-Progress : (m : KvMapper) → IsWellFormed m.tree → Progress m (evict_round m)
unfolding evict_round
evict_round-Progress m v =
    evict_first-Progress (find_eviction_candidates 1 m.tree) m v
      (find_eviction_candidates-Chooses m.tree v)

-- Over a well-formed tree the `while (true)` of `evict_one_locked` ends in its first round,
-- whatever fuel it is given beyond that.
pub evict_loop-one_round :
    (m : KvMapper) (fuel : ℕ)
    → IsWellFormed m.tree
    → evict_loop (suc fuel) m ≡ some (evict_one_locked m)
unfolding evict_one_locked evict_loop
evict_loop-one_round m fuel v = go (evict_round m) (evict_round-Progress m v)
  where
    go :
        (r : Round)
        → Progress m r
        → let once : Option (KvMapper × Bool) = elim r [
          | no_candidate ↦ some (m, false)
          | again m' ↦ none
          | done m' ↦ some (m', true)
        ] in
          let more : Option (KvMapper × Bool) = elim r [
            | no_candidate ↦ some (m, false)
            | again m' ↦ evict_loop fuel m'
            | done m' ↦ some (m', true)
          ] in
          more ≡ some (or_same m once)
    go no_candidate p = refl
    go (again m') p = absurd p
    go (done m') p = refl

abbrev pub Outcome : KvMapper → KvMapper × Bool → Type 0
Outcome m (m', true) = active_sequence_count m'.tree < active_sequence_count m.tree
Outcome m (m', false) = (m' ≡ m) × NoIdleOwner m.tree

-- Over a well-formed tree `evict_one_locked` returns true where sequences have left the tree, and
-- otherwise changes nothing, since no node is an idle owner.
pub evict_one_locked-Outcome : (m : KvMapper) → IsWellFormed m.tree → Outcome m (evict_one_locked m)
unfolding evict_one_locked
evict_one_locked-Outcome m v = go (evict_round m) (evict_round-Progress m v)
  where
    go :
        (r : Round)
        → Progress m r
        → let once : Option (KvMapper × Bool) = elim r [
          | no_candidate ↦ some (m, false)
          | again m' ↦ none
          | done m' ↦ some (m', true)
        ] in
          Outcome m (or_same m once)
    go no_candidate p = (refl, p)
    go (again m') p = absurd p
    go (done m') p = p

-- The loop ends with the cells within the limit, or with nothing left to evict.
abbrev pub Relieved : ℕ → Option (KvMapper × Bool) → Type 0
Relieved high_watermark none = ⊥
Relieved high_watermark (some (m, evicted)) =
    (kv_cells_used_locked m ≤ high_watermark) ⊎ NoIdleOwner m.tree

pressure_loop-Relieved :
    (fuel high_watermark : ℕ) (evicted : Bool) (m : KvMapper)
    → IsWellFormed m.tree
    → active_sequence_count m.tree < fuel
    → Relieved high_watermark (pressure_loop fuel high_watermark evicted m)
unfolding pressure_loop
pressure_loop-Relieved zero high_watermark evicted m v h = absurd (omega arith)
pressure_loop-Relieved (suc fuel) high_watermark evicted m v h =
    go (evict_one_locked m) (evict_one_locked-Outcome m v)
      ((evict_one_locked-Evicts m).balances.shape v)
      (λ (m' : KvMapper) v' h'. pressure_loop-Relieved fuel high_watermark true m' v' h')
  where
    go :
        (r : KvMapper × Bool)
        → Outcome m r
        → IsWellFormed r.0.tree
        → ((m' : KvMapper)
            → IsWellFormed m'.tree
            → active_sequence_count m'.tree < fuel
            → Relieved high_watermark (pressure_loop fuel high_watermark true m'))
        → let rest = pressure_loop fuel high_watermark true r.0 in
          let out : Option (KvMapper × Bool) =
            if ltb high_watermark (kv_cells_used_locked m)
            then (if r.1 then rest else some (r.0, evicted))
            else some (m, evicted) in
          Relieved high_watermark out
    go (m', true) outcome v' ih = elim (Bool-cases (ltb high_watermark (kv_cells_used_locked m))) [
      | inr below ↦ rw below (inl (ground arith))
      | inl above ↦ rw above (ih m' v' (omega arith))
    ]
    go (m', false) (same, nobody) v' ih =
        elim (Bool-cases (ltb high_watermark (kv_cells_used_locked m))) [
          | inr below ↦ rw below (inl (ground arith))
          | inl above ↦
              rw above (inr (subst (λ (x : KvMapper). NoIdleOwner x.tree) (sym same) nobody))
        ]

-- Over a well-formed tree `evict_kv_pressure_locked` is given enough fuel: it ends with the tracked
-- cells at most at the high watermark, or with no idle owner left in the tree.
pub evict_kv_pressure_locked-Relieved :
    (m : KvMapper)
    → IsWellFormed m.tree
    → let m' = (evict_kv_pressure_locked m).0 in
      (kv_cells_used_locked m' ≤ m.config.kv_high_watermark m.config.n_ctx) ⊎ NoIdleOwner m'.tree
unfolding evict_kv_pressure_locked
evict_kv_pressure_locked-Relieved m v = go _ (pressure_loop-Relieved _ _ false m v (omega arith))
  where
    go :
        (o : Option (KvMapper × Bool))
        → Relieved (m.config.kv_high_watermark m.config.n_ctx) o
        → let m' = (or_same m o).0 in
          (kv_cells_used_locked m' ≤ m.config.kv_high_watermark m.config.n_ctx)
          ⊎ NoIdleOwner m'.tree
    go none r = absurd r
    go (some r) p = p
