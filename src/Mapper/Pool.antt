-- ===== src/Mapper/Pool.antt =====
-- The accounting of sequence ids in src/kv_mapper.cpp: each id is in the free pool or registered
-- at one node of the tree.
pub mod Evictions
pub mod Steps
pub mod Histories
use radixforge.Common.{
  ℕ, zero, suc, ◌+◌, ◌-◌, ◌≤◌, ◌<◌, ◌≡◌, refl, sym, ap, ◌∙◌, ◌⊎◌, inl, inr, Bool, true, false, not,
  ◌&&◌, List, [], ◌∷◌, ◌++◌, Option, none, some, arith, ◌==◌, ltb, leb, if◌then◌else◌, length,
  indicator, count, count-append, Bool-cases, Option-cases, List-cases,
}
use radixforge.Tree.Node.{RadixTree, RadixNode, total, owns, at, get, empty_tree}
use radixforge.Tree.Prefix.{insert}
use radixforge.Tree.Sequences.{
  register_seq_id, mark_seq_id_ready, release_seq_id, extend_seq_id, find_covering_seq_id,
}
use radixforge.Tree.Evict.{find_eviction_candidates, evict, release}
use radixforge.Tree.Invariant.{IsWellFormed}
use radixforge.Tree.Invariant.Insert.Leaf.{insert-IsWellFormed, insert-present}
use radixforge.Tree.Invariant.Release.{
  release-IsWellFormed, evict-IsWellFormed, owns-release, owns-evict, references, references-evict,
}
use radixforge.Tree.Owners.{
  owns-insert, references-insert, owns-register_seq_id, register_seq_id-IsWellFormed,
  mark_seq_id_ready-IsWellFormed, owns-mark_seq_id_ready, owns-release_seq_id,
  release_seq_id-IsWellFormed,
}
use radixforge.Tree.Owners.Extend.{owns-extend_seq_id, extend_seq_id-IsWellFormed}
use radixforge.Mapper.State.{KvMapper, kv_cells_used_locked, Config, seq_pool, new_mapper}
use radixforge.Mapper.Eviction.{
  Round, no_candidate, again, done, after_evict, evict_first, evict_round, reclaim, reclaim_all,
  count_evictions, evict_loop, or_same, evict_one_locked, pressure_loop, evict_kv_pressure_locked,
  evict_kv_pressure, gc_if_needed, pop_free, allocate_seq_id_locked,
}
use radixforge.Mapper.Sequence.{
  PrepareResult, count_request, find_source, copy_prefix, attach, attach_or_release,
  prepare_sequence, mark_sequence_ready, set_sequence_cell_count, extend_sequence, retain_sequence,
  release_sequence,
}

-- The ids that the constructor hands out: 1 up to the limit.
abbrev pub usable : Config → ℕ → ℕ
usable c s = if leb 1 s && ltb s c.max_sequences then 1 else 0

-- Under the configuration that the mapper was made with.
pub record IsAccounted (k : Config) (m : KvMapper) : Type 0 where
  pub shape : IsWellFormed m.tree
  pub pool : (s : ℕ) → count s m.free_seq_ids + total (owns s) m.tree.nodes ≡ usable k s

count-seq_pool : (s i n : ℕ) → count s (seq_pool i n) ≡ (if leb i s && ltb s (i + n) then 1 else 0)
unfolding count seq_pool
count-seq_pool s i zero = ground arith
count-seq_pool s i (suc n) = ground (arith, count-seq_pool s (suc i) n)

-- A new mapper over a tree that owns nothing.
pub new_mapper-IsAccounted :
    (t : RadixTree) (k : Config)
    → IsWellFormed t
    → ((s : ℕ) → total (owns s) t.nodes ≡ 0)
    → IsAccounted k (new_mapper t k)
unfolding new_mapper
new_mapper-IsAccounted t k v unowned = record {
  shape = v;
  pool = λ s. ground (arith, unowned s, count-seq_pool s 1 (k.max_sequences - 1));
}

pub reclaim_all-lem :
    (s : ℕ) (evicted : List ℕ) (m : KvMapper)
    → let m' = reclaim_all evicted m in
      (count s m'.free_seq_ids ≡ count s m.free_seq_ids + count s evicted) × (m'.tree ≡ m.tree)
unfolding reclaim_all count
reclaim_all-lem s [] m = ground arith
reclaim_all-lem s (x ∷ xs) m =
    ground (arith, count-append s m.free_seq_ids (x ∷ []), reclaim_all-lem s xs (reclaim x m))

-- What one operation takes from the pool, the tree gains, and the other way round.
pub record Balances (m m' : KvMapper) : Type 0 where
  pub shape : IsWellFormed m.tree → IsWellFormed m'.tree
  pub sums :
      IsWellFormed m.tree
      → (s : ℕ)
      → count s m'.free_seq_ids + total (owns s) m'.tree.nodes
        ≡ count s m.free_seq_ids + total (owns s) m.tree.nodes

pub Balances-IsAccounted :
    {k : Config} {m m' : KvMapper} → Balances m m' → IsAccounted k m → IsAccounted k m'
Balances-IsAccounted b a = record {
  shape = b.shape a.shape;
  pool = λ s. b.sums a.shape s ∙ a.pool s;
}

pub Balances-refl : (m : KvMapper) → Balances m m
Balances-refl m = record { shape = λ v. v; sums = λ v s. refl }

pub Balances-trans : {m m' m'' : KvMapper} → Balances m m' → Balances m' m'' → Balances m m''
Balances-trans b c = record {
  shape = λ v. c.shape (b.shape v);
  sums = λ v s. c.sums (b.shape v) s ∙ b.sums v s;
}

-- An operation on the tree that leaves the owners alone.
pub tree-Balances :
    (m : KvMapper) (tree : RadixTree)
    → (IsWellFormed m.tree → IsWellFormed tree)
    → (IsWellFormed m.tree → (s : ℕ) → total (owns s) tree.nodes ≡ total (owns s) m.tree.nodes)
    → Balances m (record m { tree = tree })
tree-Balances m tree shape same = record { shape = shape; sums = λ v s. omega (arith, same v s) }
