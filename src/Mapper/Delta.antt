-- ===== src/Mapper/Delta.antt =====
-- What `prepare_sequence` leaves to be decoded.
use radixforge.Common.{
  ℕ, ◌+◌, ◌≤◌, ◌<◌, ◌≡◌, ◌≢◌, refl, ap, subst, List, [], ◌∷◌, Option, none, some, arith, length,
  drop, length-drop,
}
use radixforge.Tree.Node.{RadixTree, Children, nil, child}
use radixforge.Tree.Prefix.{PrefixMatch, descend_root, find_prefix_locked, add_leaf, insert}
use radixforge.Tree.Prefix.Nodes.{descend-matched}
use radixforge.Mapper.State.{KvMapper}
use radixforge.Mapper.Eviction.{evict_kv_pressure, allocate_seq_id_locked}
use radixforge.Mapper.Sequence.{
  PrepareResult, count_request, find_source, cached_position, attach, attach_or_release,
  prepare_sequence,
}

descend_root-matched-le :
    (fresh : ℕ) (nodes : Children) (ts : List ℕ)
    → (descend_root fresh nodes ts).matched_total ≤ length ts
unfolding descend_root
descend_root-matched-le fresh nil ts = omega arith
descend_root-matched-le fresh (child k root ks sibs) ts =
    omega (arith, descend-matched fresh root.address 0 ks ts)

add_leaf-matched_tokens :
    (tick : ℕ) (t : RadixTree) (m : PrefixMatch)
    → (add_leaf tick t m).1.matched_tokens ≡ m.matched_tokens
unfolding add_leaf
add_leaf-matched_tokens tick t m = ground arith

insert-matched-le :
    (t : RadixTree) (prompt : List ℕ) → (insert t prompt).1.matched_tokens ≤ length prompt
unfolding insert find_prefix_locked
insert-matched-le t prompt =
    omega
      (arith, add_leaf-matched_tokens _ _ _, descend_root-matched-le t.next_address t.nodes prompt)

cached_position-lt :
    (source : Option (ℕ × ℕ)) (matched : ℕ) (prompt : List ℕ)
    → prompt ≢ []
    → matched ≤ length prompt
    → cached_position source matched prompt < length prompt
unfolding cached_position
cached_position-lt source matched [] ne h = absurd (ne refl)
cached_position-lt none matched (t ∷ ts) ne h = omega arith
cached_position-lt (some (src, len)) matched (t ∷ ts) ne h = ground arith

-- The cached part and the rest make up the prompt, and the rest is not empty.
pub record IsSplit (prompt : List ℕ) (r : PrepareResult) : Type 0 where
  pub rest : r.delta ≡ drop r.cached_pos prompt
  pub some_left : 0 < length r.delta
  pub positions : r.cached_pos + length r.delta ≡ length prompt

abbrev pub MaybeSplit : List ℕ → Option PrepareResult → Type 0
MaybeSplit prompt none = Unit {0}
MaybeSplit prompt (some r) = IsSplit prompt r

attach_or_release-MaybeSplit :
    (found : PrefixMatch) (prompt : List ℕ) (r : KvMapper × Option ℕ)
    → prompt ≢ []
    → found.matched_tokens ≤ length prompt
    → MaybeSplit prompt (attach_or_release found prompt r).1
unfolding attach_or_release attach
attach_or_release-MaybeSplit found prompt (m, none) ne h = tt
attach_or_release-MaybeSplit found prompt (m, some s) ne h =
    let cached = cached_position (find_source m found) found.matched_tokens prompt in
    let below = cached_position-lt (find_source m found) found.matched_tokens prompt ne h in
    record {
      rest = refl;
      some_left = omega (arith, length-drop cached prompt);
      positions = omega (arith, length-drop cached prompt);
    }

-- For a prompt with tokens, a result of `prepare_sequence` splits the prompt: `delta` is what
-- stands behind the first `cached_pos` tokens, and it is not empty.
pub prepare_sequence-IsSplit :
    (m m' : KvMapper) (prompt : List ℕ) (r : PrepareResult)
    → prompt ≢ []
    → prepare_sequence m prompt ≡ (m', some r)
    → IsSplit prompt r
unfolding prepare_sequence
prepare_sequence-IsSplit m0 m' prompt r ne e =
    let m = evict_kv_pressure (count_request (length prompt) m0) in
    let (tree, found) = insert m.tree prompt in
    subst (MaybeSplit prompt) (ap (λ (x : KvMapper × Option PrepareResult). x.1) e) (
      attach_or_release-MaybeSplit found prompt (allocate_seq_id_locked (record m { tree = tree }))
        ne (insert-matched-le m.tree prompt))

abbrev pub DropsTo : List ℕ → Option PrepareResult → Type 0
DropsTo prompt none = Unit {0}
DropsTo prompt (some r) = r.delta ≡ drop r.cached_pos prompt

attach_or_release-DropsTo :
    (found : PrefixMatch) (prompt : List ℕ) (r : KvMapper × Option ℕ)
    → DropsTo prompt (attach_or_release found prompt r).1
unfolding attach_or_release attach
attach_or_release-DropsTo found prompt (m, none) = tt
attach_or_release-DropsTo found prompt (m, some s) = refl

-- For any prompt, the delta is what stands behind the cached part.
pub prepare_sequence-DropsTo :
    (m : KvMapper) (prompt : List ℕ) → DropsTo prompt (prepare_sequence m prompt).1
unfolding prepare_sequence
prepare_sequence-DropsTo m0 prompt =
    let m = evict_kv_pressure (count_request (length prompt) m0) in
    let (tree, found) = insert m.tree prompt in
    attach_or_release-DropsTo found prompt (allocate_seq_id_locked (record m { tree = tree }))
