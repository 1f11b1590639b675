-- ===== src/Mapper/Pool/Evictions.antt =====
-- Evictions balance the pool and the tree, and leave every reference in place.
use radixforge.Common.{
  ℕ, zero, suc, ◌≡◌, refl, ap, ◌∙◌, inl, inr, Bool, true, false, List, [], ◌∷◌, Option, none, some,
  arith, ltb, count, Bool-cases,
}
use radixforge.Tree.Node.{RadixNode, total}
use radixforge.Tree.Evict.{evict}
use radixforge.Tree.Invariant.{IsWellFormed}
use radixforge.Tree.Invariant.Release.{evict-IsWellFormed, owns-evict, references, references-evict}
use radixforge.Mapper.State.{KvMapper, kv_cells_used_locked}
use radixforge.Mapper.Eviction.{
  Round, no_candidate, again, done, after_evict, evict_first, evict_round, or_same,
  evict_one_locked, pressure_loop, evict_kv_pressure, gc_if_needed,
}
use radixforge.Mapper.Pool.{Balances, Balances-refl, Balances-trans, tree-Balances, reclaim_all-lem}

-- An eviction, moreover, leaves every reference in place.
pub record Evicts (m m' : KvMapper) : Type 0 where
  pub balances : Balances m m'
  pub kept :
      IsWellFormed m.tree
      → (i : ℕ) → total (references i) m'.tree.nodes ≡ total (references i) m.tree.nodes

pub Evicts-refl : (m : KvMapper) → Evicts m m
Evicts-refl m = record { balances = Balances-refl m; kept = λ v i. refl }

pub Evicts-trans : {m m' m'' : KvMapper} → Evicts m m' → Evicts m' m'' → Evicts m m''
Evicts-trans b c = record {
  balances = Balances-trans b.balances c.balances;
  kept = λ v i. c.kept (b.balances.shape v) i ∙ b.kept v i;
}

abbrev pub RoundEvicts : KvMapper → Round → Type 0
RoundEvicts m no_candidate = Unit {0}
RoundEvicts m (again m') = Evicts m m'
RoundEvicts m (done m') = Evicts m m'

after_evict-Evicts :
    (i : ℕ) (m : KvMapper) (evicted : List ℕ)
    → (evict i m.tree).1 ≡ evicted
    → RoundEvicts m (after_evict evicted (record m { tree = (evict i m.tree).0 }))
unfolding after_evict count
after_evict-Evicts i m [] e = record {
  balances =
      tree-Balances m (evict i m.tree).0 (evict-IsWellFormed i m.tree)
        (λ v s. omega (arith, owns-evict s i m.tree v, ap (count s) e));
  kept = λ v j. references-evict j i m.tree v;
}
after_evict-Evicts i m (x ∷ xs) e =
    let lem = λ (s : ℕ). reclaim_all-lem s (x ∷ xs) (record m { tree = (evict i m.tree).0 }) in
    record {
      balances = record {
        shape = λ v. rw (lem 0).1 (evict-IsWellFormed i m.tree v);
        sums = λ v s. rw (lem 0).1 (omega (arith, lem s, owns-evict s i m.tree v, ap (count s) e));
      };
      kept = λ v j. rw (lem 0).1 (references-evict j i m.tree v);
    }

evict_first-Evicts : (cs : List RadixNode) (m : KvMapper) → RoundEvicts m (evict_first cs m)
unfolding evict_first
evict_first-Evicts [] m = tt
evict_first-Evicts (c ∷ cs) m = after_evict-Evicts c.address m (evict c.address m.tree).1 refl

pub evict_one_locked-Evicts : (m : KvMapper) → Evicts m (evict_one_locked m).0
unfolding evict_one_locked
evict_one_locked-Evicts m = go (evict_round m) (evict_first-Evicts _ m)
  where
    go :
        (r : Round)
        → RoundEvicts m r
        → Evicts m
            (or_same m (elim r [
              | no_candidate ↦ some (m, false)
              | again m' ↦ none
              | done m' ↦ some (m', true)
            ])).0
    go no_candidate b = Evicts-refl m
    go (again m') b = Evicts-refl m
    go (done m') b = b

-- Where there is a result, it comes of evictions.
abbrev MaybeEvicts : KvMapper → Option (KvMapper × Bool) → Type 0
MaybeEvicts m none = Unit {0}
MaybeEvicts m (some r) = Evicts m r.0

MaybeEvicts-trans :
    {m m' : KvMapper} (o : Option (KvMapper × Bool))
    → Evicts m m'
    → MaybeEvicts m' o
    → MaybeEvicts m o
MaybeEvicts-trans none b c = tt
MaybeEvicts-trans (some r) b c = Evicts-trans b c

pressure_loop-Evicts :
    (fuel high_watermark : ℕ) (evicted : Bool) (m : KvMapper)
    → MaybeEvicts m (pressure_loop fuel high_watermark evicted m)
unfolding pressure_loop
pressure_loop-Evicts zero high_watermark evicted m = tt
pressure_loop-Evicts (suc fuel) high_watermark evicted m =
    let step = evict_one_locked-Evicts m in
    elim (Bool-cases (ltb high_watermark (kv_cells_used_locked m))) [
      | inr below ↦ rw below (Evicts-refl m)
      | inl above ↦ elim (Bool-cases (evict_one_locked m).1) [
        | inr stuck ↦ rw (above, stuck) step
        | inl freed ↦
            rw (above, freed)
              (MaybeEvicts-trans (pressure_loop fuel high_watermark true (evict_one_locked m).0)
                step (pressure_loop-Evicts fuel high_watermark true (evict_one_locked m).0))
      ]
    ]

pub evict_kv_pressure-Evicts : (m : KvMapper) → Evicts m (evict_kv_pressure m)
unfolding evict_kv_pressure
evict_kv_pressure-Evicts m = go _ (pressure_loop-Evicts _ _ false m)
  where
    go : (o : Option (KvMapper × Bool)) → MaybeEvicts m o → Evicts m (or_same m o).0
    go none b = Evicts-refl m
    go (some r) b = b

pub gc_if_needed-Evicts : (m : KvMapper) → Evicts m (gc_if_needed m)
unfolding gc_if_needed
gc_if_needed-Evicts m = go m.free_seq_ids
  where
    go : (free : List ℕ) → Evicts m (elim free [ [] ↦ (evict_one_locked m).0 | _ ∷ _ ↦ m ])
    go [] = evict_one_locked-Evicts m
    go (s ∷ ss) = Evicts-refl m
