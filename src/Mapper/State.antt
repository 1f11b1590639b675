-- ===== src/Mapper/State.antt =====
-- The state of `KVMapper`, its counters and its constructor.
--
-- `KvOps` is an interface whose two operations return nothing. The mapper's calls of it are kept in
-- `calls`, oldest first, so that statements can be made about any implementation. A mutex guards
-- each public operation, which is therefore one step; logging is left out.
use radixforge.Common.{
  ℕ, zero, suc, ◌+◌, ◌-◌, Bool, false, ◌||◌, List, [], ◌∷◌, ◌++◌, ◌==◌, if◌then◌else◌, length,
}
use radixforge.Tree.Node.{RadixTree}

-- The fields of `Config` that the mapper reads. The product of `n_ctx` and the floating-point
-- `kv_high_watermark`, truncated to an integer, enters as the function of `n_ctx` that it is.
pub record Config : Type 0 where
  pub n_ctx : ℕ
  pub max_sequences : ℕ
  pub kv_high_watermark : ℕ → ℕ
  pub prefix_cache_enabled : Bool

pub record CacheMetrics : Type 0 where
  pub hits : ℕ
  pub misses : ℕ
  pub evictions : ℕ
  pub total_requests : ℕ
  pub cache_hit_tokens : ℕ
  pub prompt_tokens : ℕ

-- `seq_cp(src, dst, 0, p1)` and `seq_rm(seq_id, p0, -1)`, where -1 stands for the end.
pub data KvCall : Type 0 where
  seq_cp : ℕ → ℕ → ℕ → KvCall
  seq_rm : ℕ → ℕ → KvCall

pub record KvMapper : Type 0 where
  pub tree : RadixTree
  pub config : Config
  pub free_seq_ids : List ℕ
  pub seq_cell_counts : List (ℕ × ℕ)
  pub retained_seq_ids : List ℕ
  pub metrics : CacheMetrics
  pub calls : List KvCall

-- `seq_cell_counts_`: `count(key) != 0`, `[key] = value` and `erase(key)`.
unfoldable pub has_cells : ℕ → List (ℕ × ℕ) → Bool
has_cells s [] = false
has_cells s ((j, c) ∷ cells) = j == s || has_cells s cells

unfoldable pub put_cells : ℕ → ℕ → List (ℕ × ℕ) → List (ℕ × ℕ)
put_cells s n [] = (s, n) ∷ []
put_cells s n ((j, c) ∷ cells) = if j == s then (s, n) ∷ cells else (j, c) ∷ put_cells s n cells

unfoldable pub erase_cells : ℕ → List (ℕ × ℕ) → List (ℕ × ℕ)
erase_cells s [] = []
erase_cells s ((j, c) ∷ cells) = if j == s then cells else (j, c) ∷ erase_cells s cells

unfoldable pub sum_cells : List (ℕ × ℕ) → ℕ
sum_cells [] = 0
sum_cells ((j, c) ∷ cells) = c + sum_cells cells

unfoldable pub kv_cells_used_locked : KvMapper → ℕ
kv_cells_used_locked m = sum_cells m.seq_cell_counts

unfoldable pub active_sequence_count : KvMapper → ℕ
active_sequence_count m = length m.seq_cell_counts - length m.retained_seq_ids

unfoldable pub retained_sequence_count : KvMapper → ℕ
retained_sequence_count m = length m.retained_seq_ids

-- The loop of the constructors, from `i`.
unfoldable pub seq_pool : ℕ → ℕ → List ℕ
seq_pool i zero = []
seq_pool i (suc n) = i ∷ seq_pool (suc i) n

-- The constructor; id 0 is reserved.
unfoldable pub new_mapper : RadixTree → Config → KvMapper
unfolding seq_pool
new_mapper tree config = record {
  tree = tree;
  config = config;
  free_seq_ids = seq_pool 1 (config.max_sequences - 1);
  seq_cell_counts = [];
  retained_seq_ids = [];
  metrics = record {
    hits = 0;
    misses = 0;
    evictions = 0;
    total_requests = 0;
    cache_hit_tokens = 0;
    prompt_tokens = 0;
  };
  calls = [];
}

abbrev pub call : KvCall → KvMapper → KvMapper
call c m = record m { calls = m.calls ++ c ∷ [] }
