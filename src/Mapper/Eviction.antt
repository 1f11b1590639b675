-- ===== src/Mapper/Eviction.antt =====
-- `evict_one_locked`, `evict_kv_pressure_locked`, `gc_if_needed`, `defrag` and
-- `allocate_seq_id_locked` of src/kv_mapper.cpp.
use radixforge.Common.{
  ℕ, zero, suc, Bool, true, false, List, [], ◌∷◌, ◌++◌, Option, none, some, ltb, if◌then◌else◌,
  length, add64, set_erase,
}
use radixforge.Tree.Node.{RadixNode, RadixTree}
use radixforge.Tree.Node
use radixforge.Tree.Evict.{find_eviction_candidates, evict}
use radixforge.Mapper.State.{KvMapper, seq_rm, erase_cells, kv_cells_used_locked}

-- The body of the loop over the evicted ids.
abbrev pub reclaim : ℕ → KvMapper → KvMapper
reclaim s m = record m {
  free_seq_ids = m.free_seq_ids ++ s ∷ [];
  seq_cell_counts = erase_cells s m.seq_cell_counts;
  retained_seq_ids = set_erase s m.retained_seq_ids;
  calls = m.calls ++ seq_rm s 0 ∷ [];
}

unfoldable pub reclaim_all : List ℕ → KvMapper → KvMapper
reclaim_all [] m = m
reclaim_all (s ∷ ss) m = reclaim_all ss (reclaim s m)

abbrev pub count_evictions : ℕ → KvMapper → KvMapper
count_evictions n m = record m {
  metrics = record (m.metrics) { evictions = add64 m.metrics.evictions n };
}

-- One round of the loop of `evict_one_locked`: there is no candidate, the loop continues, or a
-- candidate was evicted.
pub data Round : Type 0 where
  no_candidate : Round
  again : KvMapper → Round
  done : KvMapper → Round

-- On what `RadixTree::evict` returned.
unfoldable pub after_evict : List ℕ → KvMapper → Round
after_evict [] m = again m
after_evict (s ∷ ss) m = done (count_evictions (length (s ∷ ss)) (reclaim_all (s ∷ ss) m))

unfoldable pub evict_first : List RadixNode → KvMapper → Round
unfolding after_evict
evict_first [] m = no_candidate
evict_first (candidate ∷ _) m =
    let (tree, evicted) = evict candidate.address m.tree in
    after_evict evicted (record m { tree = tree })

unfoldable pub evict_round : KvMapper → Round
unfolding evict_first
evict_round m = evict_first (find_eviction_candidates 1 m.tree) m

-- `while (true)` in `evict_one_locked`, on fuel; `none` when the fuel runs out.
unfoldable pub evict_loop : ℕ → KvMapper → Option (KvMapper × Bool)
evict_loop zero m = none
evict_loop (suc fuel) m = elim (evict_round m) [
  | no_candidate ↦ some (m, false)
  | again m' ↦ evict_loop fuel m'
  | done m' ↦ some (m', true)
]

abbrev pub or_same : KvMapper → Option (KvMapper × Bool) → KvMapper × Bool
or_same m none = (m, false)
or_same m (some r) = r

-- A candidate can always be evicted, so that one round is enough.
unfoldable pub evict_one_locked : KvMapper → KvMapper × Bool
unfolding evict_loop evict_round
evict_one_locked m = or_same m (evict_loop 1 m)

-- The loop of `evict_kv_pressure_locked`, on fuel; the flag is its variable `evicted`.
unfoldable pub pressure_loop : ℕ → ℕ → Bool → KvMapper → Option (KvMapper × Bool)
pressure_loop zero high_watermark evicted m = none
pressure_loop (suc fuel) high_watermark evicted m =
    let (m', freed) = evict_one_locked m in
    let rest = pressure_loop fuel high_watermark true m' in
    if ltb high_watermark (kv_cells_used_locked m)
    then (if freed then rest else some (m', evicted))
    else some (m, evicted)

-- Each round takes a sequence out of the tree, so that this fuel is enough.
unfoldable pub evict_kv_pressure_locked : KvMapper → KvMapper × Bool
evict_kv_pressure_locked m = or_same m (
    pressure_loop (suc (Node.active_sequence_count m.tree))
      (m.config.kv_high_watermark m.config.n_ctx) false m)

unfoldable pub evict_kv_pressure : KvMapper → KvMapper
unfolding evict_kv_pressure_locked
evict_kv_pressure m = (evict_kv_pressure_locked m).0

unfoldable pub evict_idle_sequence : KvMapper → KvMapper × Bool
unfolding evict_one_locked
evict_idle_sequence m = evict_one_locked m

unfoldable pub gc_if_needed : KvMapper → KvMapper
gc_if_needed m = elim m.free_seq_ids [ [] ↦ (evict_one_locked m).0 | _ ∷ _ ↦ m ]

unfoldable pub defrag : KvMapper → KvMapper
unfolding gc_if_needed
defrag m = gc_if_needed m

-- `front()` and `pop_front()`; `none` for the exception `SequenceCapacityExhausted`.
abbrev pub pop_free : List ℕ → KvMapper → KvMapper × Option ℕ
pop_free [] m = (m, none)
pop_free (s ∷ rest) m = (record m { free_seq_ids = rest }, some s)

unfoldable pub allocate_seq_id_locked : KvMapper → KvMapper × Option ℕ
unfolding gc_if_needed
allocate_seq_id_locked m = let m' = gc_if_needed m in pop_free m'.free_seq_ids m'
