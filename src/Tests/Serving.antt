-- ===== src/Tests/Serving.antt =====
-- Runs of the worker on small inputs, and its theorems at inputs that meet their hypotheses.
use radixforge.Common.{
  ℕ, ◌≤◌, ◌++◌, map, take, ◌-◌, ◌+◌, ◌≡◌, refl, true, false, List, [], ◌∷◌, contains, set_insert,
  set_erase, length, ◌==◌, arith, All,
}
use radixforge.Tree.Node.{
  empty_tree, get, modify, set_child, add_child, chain, total, active_sequence_count,
}
use radixforge.Tree.Prefix.{
  match_len, descend, descend_root, split_children, find_prefix_locked, add_leaf, insert,
}
use radixforge.Tree.Inspect.{inspect_prefix, inspect_nodes, inspect_children, consider_availability}
use radixforge.Tree.Evict.{idle_owners, insert_by_tick, sort_by_tick, find_eviction_candidates}
use radixforge.Tree.Sequences.{
  register_seq_id, mark_seq_id_ready, cumulative_token_depth, covering_ancestor,
  find_covering_seq_id,
}
use radixforge.Mapper.State.{
  Config, new_mapper, seq_pool, put_cells, sum_cells, kv_cells_used_locked,
}
use radixforge.Mapper.Eviction.{
  evict_first, evict_round, evict_loop, evict_one_locked, pressure_loop, evict_kv_pressure_locked,
  evict_kv_pressure, gc_if_needed, allocate_seq_id_locked,
}
use radixforge.Mapper.Sequence.{
  find_source, cached_position, copy_prefix, attach, attach_or_release, prepare_sequence,
  mark_sequence_ready, set_sequence_cell_count,
}
use radixforge.Worker.State.{
  InferenceRequest, ActiveSeq, Bridge, is_cancelled, enqueue, defer_to_front,
}
use radixforge.Worker.Prepare.{
  resolve, after_prepare, prepare_fitting, prepare_live, prepare_one, queue_rest, gather,
  prepare_all,
}
use radixforge.Worker.Batch.{prompt_entries, submitted_entries, submit, make_batch, sum_tokens}
use radixforge.Worker.Retire.{mark_cancelled, retire_cancelled, retire_completed, drop_abandoned}
use radixforge.Worker.Finish.{
  commit_one, commit, sample, advance_all, activate_with, activate, activate_if, activate_all,
}
use radixforge.Worker.Step.{llama_decode, decode, succeed, after_decode, decode_step, fused_step}
use radixforge.Worker.Loop.{
  admit, take_in, count_generating, take_admitted, round, Action, arrive, turn, act, serve,
}
use radixforge.Worker.Invariant.{IsActive, IsPending}
use radixforge.Worker.Entries.{next_entry, all_waiting, make_batch-waiting}
use radixforge.Worker.Entries.Logits.{AllPoint, make_batch-AllPoint}
use radixforge.Worker.Serving.{IsBatch, total_load}
use radixforge.Worker.Serving.Loop.{serve-IsActive, idle, serve-IsBatch}
use radixforge.Worker.Serving.Drains.{turns, serve-drains}
use radixforge.Worker.Answers.{answers, asks, asks_ctx, asks_seq, tally}
use radixforge.Worker.Answers.Errors.{IsFailure, after_decode-IsFailure}
use radixforge.Worker.Answers.Loop.{serve-accounts, serve-answers}

abbrev tiny : Config
tiny = record {
  n_ctx = 20;
  max_sequences = 3;
  kv_high_watermark = λ n. n;
  prefix_cache_enabled = true;
}

-- A model that says 5 again and again, two tokens to a batch.
abbrev patient_bridge : Bridge
patient_bridge = record {
  n_ctx = 20;
  n_batch = 2;
  n_seq_max = 3;
  apply_chat_template = λ messages. [];
  tokenize = λ text. text;
  decode = λ n. 0;
  sample = λ n. 5;
  is_eog = λ t. t == 9;
  token_to_piece = λ t. t ∷ [];
  gone = λ id n. false;
}

abbrev two_tokens : InferenceRequest
two_tokens = record {
  id = 1;
  prompt = 1 ∷ 2 ∷ 3 ∷ [];
  messages = [];
  max_tokens = 2;
  on_cancel = true;
}

abbrev first_round : List Action
first_round = arrive two_tokens ∷ turn ∷ []

-- Behind the first round the queue is empty, and a prompt is half submitted.
first_round-prefilling :
    let r = serve patient_bridge (idle tiny) first_round in
    (r.worker.queue ≡ []) × (length r.prefilling ≡ 1)
unfolding serve act round enqueue count_generating take_admitted admit take_in defer_to_front
    is_cancelled resolve after_prepare prepare_fitting prepare_live prepare_one queue_rest gather
    prepare_all prompt_entries submitted_entries submit make_batch sum_tokens mark_cancelled
    retire_cancelled retire_completed drop_abandoned commit_one commit sample advance_all
    activate_with activate activate_if activate_all llama_decode decode succeed after_decode
    decode_step fused_step new_mapper seq_pool empty_tree prepare_sequence mark_sequence_ready
    evict_kv_pressure evict_kv_pressure_locked pressure_loop evict_one_locked evict_loop evict_round
    evict_first find_eviction_candidates sort_by_tick insert_by_tick idle_owners
    kv_cells_used_locked sum_cells active_sequence_count total insert find_prefix_locked
    descend_root descend match_len split_children add_leaf add_child set_child modify
    allocate_seq_id_locked gc_if_needed find_source find_covering_seq_id chain covering_ancestor
    cumulative_token_depth cached_position copy_prefix register_seq_id set_insert put_cells
    set_erase mark_seq_id_ready contains get inspect_prefix inspect_nodes inspect_children
    consider_availability attach attach_or_release set_sequence_cell_count
    radixforge.Mapper.Sequence.inspect_prefix
first_round-prefilling = (refl, refl)

serve-answers_example :
    answers 1
      (serve patient_bridge
        (serve patient_bridge (idle tiny) first_round)
        (turns (total_load (serve patient_bridge (idle tiny) first_round)))).worker
    ≡ 1
serve-answers_example =
    serve-answers patient_bridge tiny first_round 1 (λ n. refl) (first_round-prefilling.0)
      (omega arith)

serve-drains_example :
    let r = serve patient_bridge (idle tiny) first_round in
    let r' = serve patient_bridge r (turns (total_load r)) in
    (r'.worker.queue ≡ []) × (r'.active ≡ []) × (r'.prefilling ≡ [])
serve-drains_example =
    serve-drains patient_bridge tiny first_round (first_round-prefilling.0) (omega arith)

serve-accounts_example :
    let r = serve patient_bridge (idle tiny) first_round in
    answers 1 r.worker
      + tally (asks_seq 1) r.active
      + tally (asks_ctx 1) r.prefilling
      + tally (asks 1) r.worker.queue
    ≡ 1
serve-accounts_example = serve-accounts patient_bridge tiny first_round 1 (λ n. refl)

serve-IsBatch_example :
    All (IsBatch patient_bridge) (serve patient_bridge (idle tiny) first_round).worker.batches
serve-IsBatch_example = serve-IsBatch patient_bridge tiny first_round

abbrev generating : ℕ → ActiveSeq
generating s = record {
  req = record two_tokens { id = s };
  seq_id = s;
  leaf_node = 1;
  pos = 3;
  next_token = 5;
  remaining = 1;
  done = false;
  notify_on_retire = false;
  stats = record { prompt_n = 3; cache_n = 0; prompt_tokens = 3; predicted_n = 1 };
  cached_tokens = 1 ∷ 2 ∷ 3 ∷ [];
}

-- The cache is full for two sequences and the rest of a prompt.
after_decode-IsFailure_example :
    let r = serve patient_bridge (idle tiny) first_round in
    let seqs = generating 2 ∷ generating 7 ∷ [] in
    IsFailure r.worker seqs r.prefilling 1
      (after_decode patient_bridge seqs r.prefilling [] (r.worker, 1))
after_decode-IsFailure_example =
    let r = serve patient_bridge (idle tiny) first_round in
    after_decode-IsFailure patient_bridge (generating 2 ∷ generating 7 ∷ []) r.prefilling []
      r.worker 1 (λ id n. refl) (λ e. absurd (omega (arith, e)))

-- The batch behind the first round has the last token of the prompt.
make_batch-waiting_example :
    let r = serve patient_bridge (idle tiny) first_round in
    (make_batch 2 r.active r.prefilling).0
    ≡ map next_entry r.active ++ take (2 - length r.active) (all_waiting r.prefilling)
make_batch-waiting_example =
    let r = serve patient_bridge (idle tiny) first_round in
    make_batch-waiting 2 r.active r.prefilling

make_batch-AllPoint_example :
    let r = serve patient_bridge (idle tiny) first_round in
    let b = make_batch 2 r.active r.prefilling in AllPoint (b.0) r.prefilling (b.1)
make_batch-AllPoint_example =
    let r = serve patient_bridge (idle tiny) first_round in
    make_batch-AllPoint 2 r.active r.prefilling

serve-IsActive_example :
    let r = serve patient_bridge (idle tiny) first_round in
    All (IsActive patient_bridge) r.active
    × All (IsPending patient_bridge) r.prefilling
    × (length r.active ≤ 2)
serve-IsActive_example = serve-IsActive patient_bridge tiny first_round
