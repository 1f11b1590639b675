-- ===== src/Mapper/Sequence.antt =====
-- The life of a sequence in src/kv_mapper.cpp: `prepare_sequence`, `mark_sequence_ready`,
-- `set_sequence_cell_count`, `extend_sequence` and `release_sequence`.
use radixforge.Common.{
  ℕ, ◌-◌, min, not, ◌&&◌, List, [], ◌∷◌, ◌++◌, Option, none, some, ◌==◌, ltb, if◌then◌else◌, length,
  drop, is_empty, add64, set_insert, set_erase,
}
use radixforge.Tree.Node.{get}
use radixforge.Tree.Prefix.{PrefixMatch, insert}
use radixforge.Tree.Sequences.{
  register_seq_id, mark_seq_id_ready, release_seq_id, extend_seq_id, find_covering_seq_id,
}
use radixforge.Tree.Evict.{release}
use radixforge.Tree.Inspect.{PrefixAvailability}
use radixforge.Tree.Inspect
use radixforge.Mapper.State.{KvMapper, seq_cp, seq_rm, has_cells, put_cells, call}
use radixforge.Mapper.Eviction.{evict_kv_pressure, allocate_seq_id_locked, reclaim}

pub record PrepareResult : Type 0 where
  pub seq_id : ℕ
  pub cached_pos : ℕ
  pub delta : List ℕ
  pub leaf_node : ℕ

abbrev pub count_request : ℕ → KvMapper → KvMapper
count_request n m = record m {
  metrics = record (m.metrics) {
    total_requests = add64 m.metrics.total_requests 1;
    prompt_tokens = add64 m.metrics.prompt_tokens n;
  };
}

abbrev pub count_hit : ℕ → KvMapper → KvMapper
count_hit n m = record m {
  metrics = record (m.metrics) {
    hits = add64 m.metrics.hits 1;
    cache_hit_tokens = add64 m.metrics.cache_hit_tokens n;
  };
}

abbrev pub count_miss : KvMapper → KvMapper
count_miss m = record m { metrics = record (m.metrics) { misses = add64 m.metrics.misses 1 } }

-- `src_seq` and `source_len`; `none` for -1.
unfoldable pub find_source : KvMapper → PrefixMatch → Option (ℕ × ℕ)
find_source m found =
    if m.config.prefix_cache_enabled && ltb 0 found.matched_tokens
    then find_covering_seq_id found.cache_node m.tree
    else none

-- `cached_pos`, with the step back from a full hit.
unfoldable pub cached_position : Option (ℕ × ℕ) → ℕ → List ℕ → ℕ
cached_position none matched prompt = 0
cached_position (some (src, source_len)) matched prompt =
    let cached = min matched source_len in
    if not (is_empty prompt) && cached == length prompt then cached - 1 else cached

unfoldable pub copy_prefix : Option (ℕ × ℕ) → ℕ → ℕ → KvMapper → KvMapper
copy_prefix none new_seq cached m = count_miss m
copy_prefix (some (src, source_len)) new_seq cached m =
    if ltb 0 cached then count_hit cached (call (seq_cp src new_seq cached) m) else count_miss m

-- The rest of the `try` block, with the id allocated.
unfoldable pub attach : KvMapper → PrefixMatch → List ℕ → ℕ → KvMapper × PrepareResult
attach m found prompt new_seq =
    let source = find_source m found in
    let cached = cached_position source found.matched_tokens prompt in
    let m' = copy_prefix source new_seq cached m in
    (
      record m' {
        tree = register_seq_id found.node new_seq (length prompt) m'.tree;
        seq_cell_counts = put_cells new_seq cached m'.seq_cell_counts;
        retained_seq_ids = set_erase new_seq m'.retained_seq_ids;
      },
      record {
        seq_id = new_seq;
        cached_pos = cached;
        delta = drop cached prompt;
        leaf_node = found.node;
      },
    )

-- The `try` block with its handler: without an id the reference that `insert` took is given back.
unfoldable pub attach_or_release :
    PrefixMatch → List ℕ → KvMapper × Option ℕ → KvMapper × Option PrepareResult
unfolding attach
attach_or_release found prompt (m, none) = (record m { tree = release found.node m.tree }, none)
attach_or_release found prompt (m, some s) =
    let (m', result) = attach m found prompt s in (m', some result)

-- `none` when `SequenceCapacityExhausted` is thrown again.
unfoldable pub prepare_sequence : KvMapper → List ℕ → KvMapper × Option PrepareResult
unfolding attach_or_release
prepare_sequence m0 prompt =
    let m = evict_kv_pressure (count_request (length prompt) m0) in
    let (tree, found) = insert m.tree prompt in
    attach_or_release found prompt (allocate_seq_id_locked (record m { tree = tree }))

unfoldable pub mark_sequence_ready : ℕ → ℕ → KvMapper → KvMapper
mark_sequence_ready s i m =
    let tree = mark_seq_id_ready i s m.tree in
    elim (get i tree.nodes) [
      | none ↦ record m { tree = tree }
      | some n ↦ record m {
        tree = tree;
        seq_cell_counts = put_cells s n.canonical_len m.seq_cell_counts;
      }
    ]

-- The count is not negative here.
unfoldable pub set_sequence_cell_count : ℕ → ℕ → KvMapper → KvMapper
set_sequence_cell_count s n m =
    if has_cells s m.seq_cell_counts
    then record m { seq_cell_counts = put_cells s n m.seq_cell_counts }
    else m

unfoldable pub extend_sequence : ℕ → ℕ → List ℕ → KvMapper → KvMapper × ℕ
unfolding set_sequence_cell_count
extend_sequence s i tokens m =
    let (tree, extended) = extend_seq_id i s tokens (length tokens) m.tree in
    if not m.config.prefix_cache_enabled
    then (m, i)
    else (set_sequence_cell_count s (length tokens) (record m { tree = tree }), extended)

unfoldable pub inspect_prefix : KvMapper → List ℕ → PrefixAvailability
inspect_prefix m prompt = Inspect.inspect_prefix m.tree prompt

-- The `else` branch of `release_sequence`: the canonical sequence is trimmed and kept.
unfoldable pub retain_sequence : ℕ → Option (ℕ × ℕ) → KvMapper → KvMapper
retain_sequence s none m = m
retain_sequence s (some (src, canonical_len)) m =
    if src == s
    then record m {
      calls = m.calls ++ seq_rm s canonical_len ∷ [];
      seq_cell_counts = put_cells s canonical_len m.seq_cell_counts;
      retained_seq_ids = set_insert s m.retained_seq_ids;
    }
    else m

unfoldable pub release_sequence : ℕ → ℕ → KvMapper → KvMapper
unfolding retain_sequence
release_sequence s i m =
    let (tree, should_free) = release_seq_id i s m.config.prefix_cache_enabled m.tree in
    let m' = record m { tree = tree } in
    if should_free then reclaim s m' else retain_sequence s (find_covering_seq_id i tree) m'
