-- ===== src/Tests.antt =====
-- Runs of the model on small inputs, and each theorem at an input that meets its hypotheses.
mod Serving
mod Answering
use radixforge.Common.{
  zero, suc, ℕ, ◌+◌, ◌≤◌, ◌≡◌, ◌⊎◌, refl, true, List, [], ◌∷◌, ◌++◌, Option, none, some, count,
  contains, set_insert, set_erase, length, arith,
}
use radixforge.Json.Reading.{StodError, Result, ok, err}
use radixforge.Json.Strings.{parse_string}
use radixforge.Json.Escape.{json_escape}
use radixforge.Json.Value.{
  JsonValue, nesting, number, array, object, item, no_items, field, no_fields,
}
use radixforge.Json.Parse.{parse}
use radixforge.Json.RoundTrip.{parse_string-json_escape}
use radixforge.Json.Limits.{IsBounded, parse-IsBounded}
use radixforge.Api.Utf8.{complete_utf8_prefix_length}
use radixforge.Api.Chunks.{concat, complete_utf8_prefix_length-concat}
use radixforge.Tree.Node.{
  RadixTree, empty_tree, get, modify, set_child, add_child, chain, total, owns,
  active_sequence_count,
}
use radixforge.Tree.Prefix.{
  match_len, descend, descend_root, split_children, find_prefix_locked, add_leaf, insert,
}
use radixforge.Tree.Inspect.{inspect_prefix}
use radixforge.Tree.Evict.{
  evict, idle_owners, insert_by_tick, sort_by_tick, find_eviction_candidates,
}
use radixforge.Tree.Invariant.{IsWellFormed}
use radixforge.Tree.Invariant.Insert.Leaf.{insert-IsWellFormed}
use radixforge.Tree.Invariant.Release.{owns-evict}
use radixforge.Tree.Path.{path}
use radixforge.Tree.Path.Insert.{path-insert}
use radixforge.Tree.Longest.{longest_common, find_prefix_locked-longest_common}
use radixforge.Tree.Longest.Inspect.{inspect_prefix-find_prefix_locked}
use radixforge.Tree.Candidates.{Chooses, find_eviction_candidates-Chooses}
use radixforge.Tree.Sequences.{
  register_seq_id, mark_seq_id_ready, cumulative_token_depth, covering_ancestor,
  find_covering_seq_id,
}
use radixforge.Mapper.State.{
  Config, KvMapper, seq_cp, new_mapper, put_cells, sum_cells, kv_cells_used_locked,
}
use radixforge.Mapper.Eviction.{
  evict_first, evict_round, evict_loop, evict_one_locked, pressure_loop, evict_kv_pressure_locked,
  evict_kv_pressure, gc_if_needed, allocate_seq_id_locked,
}
use radixforge.Mapper.Sequence.{
  PrepareResult, find_source, cached_position, copy_prefix, prepare_sequence, mark_sequence_ready,
}
use radixforge.Mapper.Pool.Histories.{
  MapperCall, prepare, mark_ready, release_node, step, run, run-pool, run-IsWellFormed,
  empty_tree-IsWellFormed,
}
use radixforge.Mapper.Delta.{IsSplit, prepare_sequence-IsSplit}
use radixforge.Mapper.Progress.{
  NoIdleOwner, Outcome, evict_loop-one_round, evict_one_locked-Outcome,
  evict_kv_pressure_locked-Relieved,
}

abbrev small : Config
small = record {
  n_ctx = 100;
  max_sequences = 3;
  kv_high_watermark = λ n. n;
  prefix_cache_enabled = true;
}

abbrev fresh_mapper : KvMapper
fresh_mapper = new_mapper empty_tree small

-- Two prompts with a common prefix; the second is prepared while the first is still referenced.
abbrev history : List MapperCall
history = prepare (1 ∷ 2 ∷ 3 ∷ []) ∷ mark_ready 1 2 ∷ prepare (1 ∷ 2 ∷ 4 ∷ []) ∷ []

history-calls : (run fresh_mapper history).calls ≡ seq_cp 1 2 2 ∷ []
unfolding run step new_mapper empty_tree prepare_sequence mark_sequence_ready evict_kv_pressure
    evict_kv_pressure_locked pressure_loop evict_one_locked evict_loop evict_round evict_first
    find_eviction_candidates sort_by_tick insert_by_tick idle_owners kv_cells_used_locked sum_cells
    active_sequence_count total insert find_prefix_locked descend_root descend match_len
    split_children add_leaf add_child set_child modify allocate_seq_id_locked gc_if_needed
    find_source find_covering_seq_id chain covering_ancestor cumulative_token_depth cached_position
    copy_prefix register_seq_id set_insert put_cells set_erase mark_seq_id_ready contains get
history-calls = refl

run-pool_example :
    count 2 (run fresh_mapper history).free_seq_ids
      + total (owns 2) (run fresh_mapper history).tree.nodes
    ≡ 1
run-pool_example = run-pool small history 2

run-IsWellFormed_example : IsWellFormed (run fresh_mapper history).tree
run-IsWellFormed_example = run-IsWellFormed small history

abbrev one_prompt : RadixTree
one_prompt = (insert empty_tree (1 ∷ 2 ∷ 3 ∷ [])).0

one_prompt-IsWellFormed : IsWellFormed one_prompt
one_prompt-IsWellFormed = insert-IsWellFormed empty_tree (1 ∷ 2 ∷ 3 ∷ []) empty_tree-IsWellFormed

path-insert_example :
    path (insert one_prompt (1 ∷ 2 ∷ 4 ∷ [])).1.node (insert one_prompt (1 ∷ 2 ∷ 4 ∷ [])).0.nodes
    ≡ some (1 ∷ 2 ∷ 4 ∷ [])
path-insert_example = path-insert one_prompt (1 ∷ 2 ∷ 4 ∷ []) one_prompt-IsWellFormed

find_prefix_locked-longest_common_example :
    (find_prefix_locked one_prompt (1 ∷ 2 ∷ 4 ∷ [])).1.matched_tokens
    ≡ longest_common [] one_prompt.nodes (1 ∷ 2 ∷ 4 ∷ [])
find_prefix_locked-longest_common_example =
    find_prefix_locked-longest_common one_prompt (1 ∷ 2 ∷ 4 ∷ []) one_prompt-IsWellFormed

inspect_prefix-find_prefix_locked_example :
    (inspect_prefix one_prompt (1 ∷ 2 ∷ 4 ∷ [])).matched_tokens
    ≡ (find_prefix_locked one_prompt (1 ∷ 2 ∷ 4 ∷ [])).1.matched_tokens
inspect_prefix-find_prefix_locked_example =
    inspect_prefix-find_prefix_locked one_prompt (1 ∷ 2 ∷ 4 ∷ []) one_prompt-IsWellFormed

-- A tree with one idle owner, and a mapper over it.
abbrev idle_tree : RadixTree
idle_tree =
    (run fresh_mapper (prepare (1 ∷ 2 ∷ 3 ∷ []) ∷ mark_ready 1 2 ∷ release_node 2 ∷ [])).tree

idle_tree-IsWellFormed : IsWellFormed idle_tree
idle_tree-IsWellFormed =
    run-IsWellFormed small (prepare (1 ∷ 2 ∷ 3 ∷ []) ∷ mark_ready 1 2 ∷ release_node 2 ∷ [])

abbrev idle_mapper : KvMapper
idle_mapper = record fresh_mapper { tree = idle_tree }

find_eviction_candidates-Chooses_example : Chooses idle_tree (find_eviction_candidates 1 idle_tree)
find_eviction_candidates-Chooses_example =
    find_eviction_candidates-Chooses idle_tree idle_tree-IsWellFormed

evict_loop-one_round_example : evict_loop 7 idle_mapper ≡ some (evict_one_locked idle_mapper)
evict_loop-one_round_example = evict_loop-one_round idle_mapper 6 idle_tree-IsWellFormed

evict_one_locked-Outcome_example : Outcome idle_mapper (evict_one_locked idle_mapper)
evict_one_locked-Outcome_example = evict_one_locked-Outcome idle_mapper idle_tree-IsWellFormed

evict_kv_pressure_locked-Relieved_example :
    (kv_cells_used_locked (evict_kv_pressure_locked idle_mapper).0 ≤ 100)
    ⊎ NoIdleOwner (evict_kv_pressure_locked idle_mapper).0.tree
unfolding new_mapper
evict_kv_pressure_locked-Relieved_example =
    evict_kv_pressure_locked-Relieved idle_mapper idle_tree-IsWellFormed

owns-evict_example :
    total (owns 1) (evict 2 idle_tree).0.nodes + count 1 (evict 2 idle_tree).1
    ≡ total (owns 1) idle_tree.nodes
owns-evict_example = owns-evict 1 2 idle_tree idle_tree-IsWellFormed

abbrev first_result : PrepareResult
first_result = record { seq_id = 1; cached_pos = 0; delta = 1 ∷ 2 ∷ 3 ∷ []; leaf_node = 2 }

prepare_sequence-IsSplit_example : IsSplit (1 ∷ 2 ∷ 3 ∷ []) first_result
unfolding new_mapper empty_tree prepare_sequence evict_kv_pressure evict_kv_pressure_locked
    pressure_loop evict_one_locked evict_loop evict_round evict_first find_eviction_candidates
    sort_by_tick insert_by_tick idle_owners kv_cells_used_locked sum_cells active_sequence_count
    total insert find_prefix_locked descend_root descend match_len split_children add_leaf add_child
    set_child modify allocate_seq_id_locked gc_if_needed find_source find_covering_seq_id chain
    covering_ancestor cumulative_token_depth cached_position copy_prefix register_seq_id set_insert
    put_cells set_erase
prepare_sequence-IsSplit_example =
    prepare_sequence-IsSplit fresh_mapper (prepare_sequence fresh_mapper (1 ∷ 2 ∷ 3 ∷ [])).0
      (1 ∷ 2 ∷ 3 ∷ []) first_result (λ e. cc) refl

-- `a"\`, a line feed and a byte 1.
abbrev control_text : List ℕ
control_text = 97 ∷ 34 ∷ 92 ∷ 10 ∷ 1 ∷ []

parse_string-json_escape_example :
    parse_string (34 ∷ (json_escape control_text ++ 34 ∷ 44 ∷ [])) ≡ ok (control_text, 44 ∷ [])
parse_string-json_escape_example = parse_string-json_escape control_text (44 ∷ [])

-- `{"a": [1, {}], "a": true} `.
abbrev object_text : List ℕ
object_text =
    123 ∷ 34 ∷ 97 ∷ 34 ∷ 58 ∷ 32 ∷ 91 ∷ 49 ∷ 44 ∷ 32 ∷ 123 ∷ 125 ∷ 93 ∷ 44 ∷ 34 ∷ 97 ∷ 34 ∷ 58 ∷ 116
    ∷ 114 ∷ 117 ∷ 101 ∷ 125 ∷ 32 ∷ []

abbrev no_error : List ℕ → Option StodError
no_error text = none

-- The first value of a repeated key is kept.
parse_object :
    parse no_error object_text
    ≡ ok (
        object (
          field
            (97 ∷ [])
            (array (item (number (49 ∷ [])) (item (object no_fields) no_items)))
            no_fields))
unfolding parse
parse_object = refl

-- 65 brackets around nothing, which are taken, and around a 0, which are not.
abbrev brackets : ℕ → List ℕ → List ℕ
brackets zero inside = inside
brackets (suc n) inside = 91 ∷ (brackets n inside ++ 93 ∷ [])

abbrev depth_of : Result JsonValue → Option ℕ
depth_of (ok v) = some (nesting v)
depth_of (err e) = none

parse-brackets :
    (depth_of (parse no_error (brackets 65 [])) ≡ some 65)
    × (depth_of (parse no_error (brackets 65 (48 ∷ []))) ≡ none)
unfolding parse nesting
parse-brackets = (refl, refl)

parse-IsBounded_example : IsBounded (parse no_error object_text)
parse-IsBounded_example = parse-IsBounded no_error object_text

-- `aé`, and three of the four bytes of an emoji.
abbrev two_characters : List (List ℕ)
two_characters = (97 ∷ []) ∷ (195 ∷ 169 ∷ []) ∷ []

abbrev part_of_emoji : List ℕ
part_of_emoji = 240 ∷ 159 ∷ 152 ∷ []

complete_utf8_prefix_length-concat_example :
    complete_utf8_prefix_length (concat two_characters ++ part_of_emoji)
    ≡ length (concat two_characters)
complete_utf8_prefix_length-concat_example =
    complete_utf8_prefix_length-concat two_characters part_of_emoji
      ((tt, ground arith), (((ground arith, tt), ground arith), tt))
      ((ground arith, (ground arith, tt)), (4, ground arith, omega arith))
