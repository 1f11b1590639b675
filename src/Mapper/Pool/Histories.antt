-- ===== src/Mapper/Pool/Histories.antt =====
-- Any sequence of calls, as the worker makes them under the mapper's lock.
use radixforge.Common.{ℕ, ◌+◌, ◌≡◌, refl, List, [], ◌∷◌, arith, count}
use radixforge.Tree.Node.{total, owns, empty_tree}
use radixforge.Tree.Evict.{release}
use radixforge.Tree.Invariant.{IsWellFormed}
use radixforge.Tree.Invariant.Release.{release-IsWellFormed, owns-release}
use radixforge.Mapper.State.{KvMapper, Config, new_mapper}
use radixforge.Mapper.Eviction.{gc_if_needed, defrag, evict_idle_sequence, evict_kv_pressure}
use radixforge.Mapper.Sequence.{
  prepare_sequence, mark_sequence_ready, set_sequence_cell_count, extend_sequence, release_sequence,
}
use radixforge.Mapper.Pool.{
  IsAccounted, usable, new_mapper-IsAccounted, Balances-IsAccounted, tree-Balances,
}
use radixforge.Mapper.Pool.Evictions.{
  evict_one_locked-Evicts, evict_kv_pressure-Evicts, gc_if_needed-Evicts,
}
use radixforge.Mapper.Pool.Steps.{
  prepare_sequence-IsAccounted, mark_sequence_ready-Balances, set_sequence_cell_count-Balances,
  extend_sequence-IsAccounted, release_sequence-Balances,
}

-- The calls that change the mapper or its tree, with arguments that need not make sense;
-- `release_node` is `RadixTree::release`, which the worker calls itself.
pub data MapperCall : Type 0 where
  prepare : List ℕ → MapperCall
  mark_ready : ℕ → ℕ → MapperCall
  set_cell_count : ℕ → ℕ → MapperCall
  extend : ℕ → ℕ → List ℕ → MapperCall
  release_seq : ℕ → ℕ → MapperCall
  release_node : ℕ → MapperCall
  evict_idle evict_pressure collect defragment : MapperCall

unfoldable pub step : KvMapper → MapperCall → KvMapper
step m (prepare prompt) = (prepare_sequence m prompt).0
step m (mark_ready s i) = mark_sequence_ready s i m
step m (set_cell_count s n) = set_sequence_cell_count s n m
step m (extend s i tokens) = (extend_sequence s i tokens m).0
step m (release_seq s i) = release_sequence s i m
step m (release_node i) = record m { tree = release i m.tree }
step m evict_idle = (evict_idle_sequence m).0
step m evict_pressure = evict_kv_pressure m
step m collect = gc_if_needed m
step m defragment = defrag m

unfoldable pub run : KvMapper → List MapperCall → KvMapper
unfolding step
run m [] = m
run m (c ∷ cs) = run (step m c) cs

pub step-IsAccounted :
    {k : Config} (m : KvMapper) (c : MapperCall) → IsAccounted k m → IsAccounted k (step m c)
unfolding step evict_idle_sequence defrag
step-IsAccounted m (prepare prompt) a = prepare_sequence-IsAccounted m prompt a
step-IsAccounted m (mark_ready s i) a = Balances-IsAccounted (mark_sequence_ready-Balances s i m) a
step-IsAccounted m (set_cell_count s n) a =
    Balances-IsAccounted (set_sequence_cell_count-Balances s n m) a
step-IsAccounted m (extend s i tokens) a = extend_sequence-IsAccounted s i tokens m a
step-IsAccounted m (release_seq s i) a = Balances-IsAccounted (release_sequence-Balances s i m) a
step-IsAccounted m (release_node i) a =
    Balances-IsAccounted
      (tree-Balances m (release i m.tree) (release-IsWellFormed i m.tree)
        (λ v s. owns-release s i m.tree v))
      a
step-IsAccounted m evict_idle a = Balances-IsAccounted (evict_one_locked-Evicts m).balances a
step-IsAccounted m evict_pressure a = Balances-IsAccounted (evict_kv_pressure-Evicts m).balances a
step-IsAccounted m collect a = Balances-IsAccounted (gc_if_needed-Evicts m).balances a
step-IsAccounted m defragment a = Balances-IsAccounted (gc_if_needed-Evicts m).balances a

run_all-IsAccounted :
    {k : Config} (m : KvMapper) (cs : List MapperCall) → IsAccounted k m → IsAccounted k (run m cs)
unfolding run
run_all-IsAccounted m [] a = a
run_all-IsAccounted m (c ∷ cs) a = run_all-IsAccounted (step m c) cs (step-IsAccounted m c a)

pub empty_tree-IsWellFormed : IsWellFormed empty_tree
unfolding empty_tree total
empty_tree-IsWellFormed = record {
  rooted = (refl, refl, tt, refl);
  one = λ i. ground arith;
  unused = λ i h. ground arith;
  not_null = refl;
}

pub empty_tree-owns : (s : ℕ) → total (owns s) empty_tree.nodes ≡ 0
unfolding empty_tree total count
empty_tree-owns s = refl

-- After any history of a new mapper, an id from 1 below the configured `max_sequences` is in the free pool
-- once and at no node, or at one node and not in the pool; any other id is in neither.
pub run-pool :
    (k : Config) (cs : List MapperCall) (s : ℕ)
    → let m = run (new_mapper empty_tree k) cs in
      count s m.free_seq_ids + total (owns s) m.tree.nodes ≡ usable k s
run-pool k cs =
    (run_all-IsAccounted (new_mapper empty_tree k) cs
      (new_mapper-IsAccounted empty_tree k empty_tree-IsWellFormed empty_tree-owns)).pool

-- After any history of a new mapper the tree is well formed: one root without tokens, each child
-- under its first token and no key twice, and distinct addresses, none null or yet to be given out.
pub run-IsWellFormed :
    (k : Config) (cs : List MapperCall) → IsWellFormed (run (new_mapper empty_tree k) cs).tree
run-IsWellFormed k cs =
    (run_all-IsAccounted (new_mapper empty_tree k) cs
      (new_mapper-IsAccounted empty_tree k empty_tree-IsWellFormed empty_tree-owns)).shape
