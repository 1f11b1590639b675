-- ===== src/Mapper/Pool/Steps.antt =====
-- Every operation of the mapper keeps the accounting.
use radixforge.Common.{
  ℕ, ◌≤◌, ◌<◌, ◌≡◌, refl, inl, inr, Bool, true, false, not, List, [], ◌∷◌, Option, none, some,
  arith, ◌==◌, if◌then◌else◌, length, count, count-append, Bool-cases, ℕ_discrete,
}
use radixforge.Tree.Node.{RadixNode, total, owns, at, get}
use radixforge.Tree.Prefix.{PrefixMatch, insert}
use radixforge.Tree.Sequences.{
  mark_seq_id_ready, release_seq_id, extend_seq_id, find_covering_seq_id,
}
use radixforge.Tree.Evict.{release}
use radixforge.Tree.Total.{total-only-absent}
use radixforge.Tree.Invariant.Insert.Leaf.{insert-IsWellFormed}
use radixforge.Tree.Invariant.Release.{release-IsWellFormed, owns-release, references}
use radixforge.Tree.Owners.{
  owns-insert, references-insert, owns-register_seq_id, register_seq_id-IsWellFormed,
  mark_seq_id_ready-IsWellFormed, owns-mark_seq_id_ready, owns-release_seq_id,
  release_seq_id-IsWellFormed,
}
use radixforge.Tree.Owners.Extend.{owns-extend_seq_id, extend_seq_id-IsWellFormed}
use radixforge.Mapper.State.{has_cells, put_cells, KvMapper, Config, has_cells, put_cells}
use radixforge.Mapper.Eviction.{evict_kv_pressure, gc_if_needed, pop_free, allocate_seq_id_locked}
use radixforge.Mapper.Sequence.{
  count_request, find_source, cached_position, copy_prefix, attach, attach_or_release,
  prepare_sequence, mark_sequence_ready, set_sequence_cell_count, extend_sequence, retain_sequence,
  release_sequence,
}
use radixforge.Mapper.Pool.{
  IsAccounted, Balances, Balances-IsAccounted, Balances-refl, Balances-trans, tree-Balances,
}
use radixforge.Mapper.Pool.Evictions.{Evicts, evict_kv_pressure-Evicts, gc_if_needed-Evicts}

-- The id that is allocated leaves the pool.
abbrev Allocates : KvMapper → KvMapper × Option ℕ → Type 0
Allocates m (m', none) = Evicts m m'
Allocates m (m', some s) = Evicts m (record m' { free_seq_ids = s ∷ m'.free_seq_ids })

pop_free-Allocates :
    (m m' : KvMapper) (free : List ℕ)
    → m'.free_seq_ids ≡ free
    → Evicts m m'
    → Allocates m (pop_free free m')
pop_free-Allocates m m' [] e b = b
pop_free-Allocates m m' (s ∷ rest) e b = rw (← e) b

allocate_seq_id_locked-Allocates : (m : KvMapper) → Allocates m (allocate_seq_id_locked m)
unfolding allocate_seq_id_locked
allocate_seq_id_locked-Allocates m =
    pop_free-Allocates m (gc_if_needed m) (gc_if_needed m).free_seq_ids refl (gc_if_needed-Evicts m)

-- Copying neither moves an id nor changes the tree.
copy_prefix-same :
    (source : Option (ℕ × ℕ)) (s cached : ℕ) (m : KvMapper)
    → let m' = copy_prefix source s cached m in
      (m'.tree ≡ m.tree) × (m'.free_seq_ids ≡ m.free_seq_ids)
unfolding copy_prefix
copy_prefix-same none s cached m = (refl, refl)
copy_prefix-same (some (src, len)) s cached m = ground arith

-- The allocated id becomes the tree's.
attach-IsAccounted :
    {k : Config} (m : KvMapper) (found : PrefixMatch) (prompt : List ℕ) (s : ℕ)
    → IsAccounted k (record m { free_seq_ids = s ∷ m.free_seq_ids })
    → total (at found.node) m.tree.nodes ≡ 1
    → IsAccounted k (attach m found prompt s).0
unfolding attach count
attach-IsAccounted m found prompt s a present =
    let source = find_source m found in
    let cached = cached_position source found.matched_tokens prompt in
    let same = copy_prefix-same source s cached m in
    record {
      shape = rw same.0 (register_seq_id-IsWellFormed found.node s (length prompt) m.tree a.shape);
      pool = λ y.
          rw (same.0, same.1)
            (omega (
              arith,
              a.pool y,
              owns-register_seq_id y found.node s (length prompt) m.tree a.shape present
                  (ground (arith, a.pool s)),
            ));
    }

attach_or_release-IsAccounted :
    {k : Config} (m : KvMapper) (found : PrefixMatch) (prompt : List ℕ) (r : KvMapper × Option ℕ)
    → IsAccounted k m
    → Allocates m r
    → 0 < total (references found.node) m.tree.nodes
    → IsAccounted k (attach_or_release found prompt r).0
unfolding attach_or_release
attach_or_release-IsAccounted m found prompt (m', none) a b held =
    Balances-IsAccounted
      (tree-Balances m' (release found.node m'.tree) (release-IsWellFormed found.node m'.tree)
        (λ v s. owns-release s found.node m'.tree v))
      (Balances-IsAccounted b.balances a)
attach_or_release-IsAccounted m found prompt (m', some s) a b held =
    let a' = Balances-IsAccounted b.balances a in
    attach-IsAccounted m' found prompt s a'
      (elim (ℕ_discrete (total (at found.node) m'.tree.nodes) 0) [
        | yes gone ↦ absurd (
            omega (
              arith,
              b.kept a.shape found.node,
              total-only-absent found.node (λ n. n.ref_count) m'.tree.nodes gone,
            ))
        | no there ↦ omega (arith, a'.shape.one found.node)
      ])

-- Whether it succeeds or throws, `prepare_sequence` neither loses an id nor hands one out twice.
pub prepare_sequence-IsAccounted :
    {k : Config} (m : KvMapper) (prompt : List ℕ)
    → IsAccounted k m
    → IsAccounted k (prepare_sequence m prompt).0
unfolding prepare_sequence
prepare_sequence-IsAccounted {k} m0 prompt a0 =
    let m = evict_kv_pressure (count_request (length prompt) m0) in
    let a : IsAccounted k m =
      Balances-IsAccounted (evict_kv_pressure-Evicts (count_request (length prompt) m0)).balances
        (record { shape = a0.shape; pool = a0.pool }) in
    let (tree, found) = insert m.tree prompt in
    let m1 = record m { tree = tree } in
    attach_or_release-IsAccounted m1 found prompt (allocate_seq_id_locked m1)
      (Balances-IsAccounted
        (tree-Balances m tree (insert-IsWellFormed m.tree prompt)
          (λ v s. owns-insert s m.tree prompt v))
        a)
      (allocate_seq_id_locked-Allocates m1) (references-insert m.tree prompt a.shape)

pub mark_sequence_ready-Balances : (s i : ℕ) (m : KvMapper) → Balances m (mark_sequence_ready s i m)
unfolding mark_sequence_ready
mark_sequence_ready-Balances s i m = go (get i (mark_seq_id_ready i s m.tree).nodes)
  where
    b : Balances m (record m { tree = mark_seq_id_ready i s m.tree })
    b =
        tree-Balances m (mark_seq_id_ready i s m.tree) (mark_seq_id_ready-IsWellFormed i s m.tree)
          (λ v y. owns-mark_seq_id_ready y i s m.tree)

    go :
        (o : Option RadixNode)
        → Balances m (elim o [
          | none ↦ record m { tree = mark_seq_id_ready i s m.tree }
          | some n ↦ record m {
            tree = mark_seq_id_ready i s m.tree;
            seq_cell_counts = put_cells s n.canonical_len m.seq_cell_counts;
          }
        ])
    go none = b
    go (some n) = record { shape = b.shape; sums = b.sums }

pub set_sequence_cell_count-Balances :
    (s n : ℕ) (m : KvMapper) → Balances m (set_sequence_cell_count s n m)
unfolding set_sequence_cell_count
set_sequence_cell_count-Balances s n m = elim (Bool-cases (has_cells s m.seq_cell_counts)) [
  | inl known ↦ rw known (record { shape = λ v. v; sums = λ v y. refl })
  | inr unknown ↦ rw unknown (Balances-refl m)
]

-- Each id is owned at most once.
pub owned_once :
    {k : Config} {m : KvMapper} (s : ℕ) → IsAccounted k m → total (owns s) m.tree.nodes ≤ 1
owned_once s a = ground (arith, a.pool s)

pub extend_sequence-IsAccounted :
    {k : Config} (s i : ℕ) (tokens : List ℕ) (m : KvMapper)
    → IsAccounted k m
    → IsAccounted k (extend_sequence s i tokens m).0
unfolding extend_sequence
extend_sequence-IsAccounted {k} s i tokens m a =
    let tree = (extend_seq_id i s tokens (length tokens) m.tree).0 in
    let a' : IsAccounted k (record m { tree = tree }) = record {
      shape = extend_seq_id-IsWellFormed i s tokens (length tokens) m.tree a.shape;
      pool = λ y. omega (
        arith,
        a.pool y,
        owns-extend_seq_id y i s tokens (length tokens) m.tree a.shape (owned_once s a),
      );
    } in
    go m.config.prefix_cache_enabled a'
  where
    go :
        (on : Bool)
        → IsAccounted k (record m { tree = (extend_seq_id i s tokens (length tokens) m.tree).0 })
        → let r : KvMapper × ℕ = if not on then (m, i) else (
          set_sequence_cell_count s
              (length tokens)
              (record m { tree = (extend_seq_id i s tokens (length tokens) m.tree).0 }),
          (extend_seq_id i s tokens (length tokens) m.tree).1,
        ) in
          IsAccounted k r.0
    go true a' =
        Balances-IsAccounted
          (set_sequence_cell_count-Balances s (length tokens)
            (record m { tree = (extend_seq_id i s tokens (length tokens) m.tree).0 }))
          a'
    go false a' = a

retain_sequence-Balances :
    (s : ℕ) (o : Option (ℕ × ℕ)) (m : KvMapper) → Balances m (retain_sequence s o m)
unfolding retain_sequence
retain_sequence-Balances s none m = Balances-refl m
retain_sequence-Balances s (some (src, len)) m = elim (Bool-cases (src == s)) [
  | inl same ↦ rw same (record { shape = λ v. v; sums = λ v y. refl })
  | inr other ↦ rw other (Balances-refl m)
]

pub release_sequence-Balances : (s i : ℕ) (m : KvMapper) → Balances m (release_sequence s i m)
unfolding release_sequence count
release_sequence-Balances s i m =
    let retain = m.config.prefix_cache_enabled in
    let (tree, freed) = release_seq_id i s retain m.tree in
    let shape = release_seq_id-IsWellFormed i s retain m.tree in
    elim (Bool-cases freed) [
      | inl yes_freed ↦ rw yes_freed (record {
        shape = shape;
        sums = λ v y. ground (
          arith,
          count-append y m.free_seq_ids (s ∷ []),
          owns-release_seq_id y i s retain m.tree v,
        );
      })
      | inr kept ↦ rw kept (
          Balances-trans
            (tree-Balances m tree shape
              (λ v y. ground (arith, owns-release_seq_id y i s retain m.tree v)))
            (retain_sequence-Balances s (find_covering_seq_id i tree) (record m { tree = tree })))
    ]
