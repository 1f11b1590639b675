-- ===== src/Worker/Step.antt =====
-- `fused_step` of src/worker.cpp: one decode of generation tokens and prompt chunks.
use radixforge.Common.{
  ℕ, ◌&&◌, ◌||◌, List, [], ◌∷◌, ◌++◌, ◌==◌, leb, ltb, if◌then◌else◌, length, is_empty, add64,
}
use radixforge.Mapper.Eviction.{evict_idle_sequence}
use radixforge.Worker.State.{
  PrefillCtx, ActiveSeq, BatchEntry, kv_cache_is_full, inference_decode_failed,
  inference_prefill_failed, Bridge, Worker, set_mapper,
}
use radixforge.Worker.Batch.{PromptSubmission, make_batch, sum_tokens}
use radixforge.Worker.Retire.{
  mark_cancelled, retire_cancelled, retire_completed, drop_abandoned, fail_active, fail_prefill,
  fail_all_active, fail_all_prefill, pop_back,
}
use radixforge.Worker.Finish.{commit, advance_all, activate_all}

-- The worker with `active` and `prefilling` of `run`.
pub record Running : Type 0 where
  pub worker : Worker
  pub active : List ActiveSeq
  pub prefilling : List PrefillCtx

abbrev pub running : Worker → List ActiveSeq → List PrefillCtx → Running
running w seqs ctxs = record { worker = w; active = seqs; prefilling = ctxs }

-- `llama_decode`: the status.
unfoldable pub llama_decode : Bridge → List BatchEntry → Worker → Worker × ℕ
llama_decode b batch w =
    (record w { batches = w.batches ++ batch ∷ [] }, b.decode (length w.batches))

-- With a second try where the cache is full and an idle sequence can be evicted.
unfoldable pub decode : Bridge → List BatchEntry → Worker → Worker × ℕ
unfolding llama_decode
decode b batch w0 =
    let (w, status) = llama_decode b batch w0 in
    let (m, evicted) = evict_idle_sequence w.mapper in
    if status == 1
    then if evicted then llama_decode b batch (set_mapper m w) else (set_mapper m w, status)
    else (w, status)

-- The cache is full: the newest sequence fails, or the newest context.
unfoldable pub fail_newest : Bridge → List ActiveSeq → List PrefillCtx → Worker → Running
unfolding fail_active fail_prefill pop_back
fail_newest b (seq ∷ seqs) ctxs w =
    let (rest, last) = pop_back seq seqs in
    running (fail_active b kv_cache_is_full 503 last w) rest ctxs
fail_newest b [] (ctx ∷ ctxs) w =
    let (rest, last) = pop_back ctx ctxs in
    running (fail_prefill b kv_cache_is_full 503 last w) [] rest
fail_newest b [] [] w = running w [] []

unfoldable pub fail_all : Bridge → List ActiveSeq → List PrefillCtx → Worker → Running
unfolding fail_all_active fail_all_prefill
fail_all b seqs ctxs w =
    running
      (fail_all_prefill b inference_prefill_failed 500 ctxs
        (fail_all_active b inference_decode_failed 500 seqs w))
      [] []

abbrev pub count_prefill : ℕ → Worker → Worker
count_prefill n w =
    if ltb 0 n
    then record w {
      prefill_tokens = add64 w.prefill_tokens n;
      prefill_calls = add64 w.prefill_calls 1;
    }
    else w

abbrev pub count_step : Worker → Worker
count_step w = record w { decode_steps = add64 w.decode_steps 1 }

unfoldable pub succeed :
    Bridge → List ActiveSeq → List PrefillCtx → List PromptSubmission → Worker → Running
unfolding commit advance_all retire_completed activate_all sum_tokens
succeed b seqs ctxs subs w0 =
    let (w1, pending) = commit (count_prefill (sum_tokens subs) (count_step w0)) ctxs subs in
    let (w2, advanced) = advance_all b w1 seqs in
    let (w3, left) = retire_completed b w2 advanced in
    let (w4, prefilling, newly_active) = activate_all b w3 pending in
    running w4 (left ++ newly_active) prefilling

-- What the status of the decode leads to.
unfoldable pub after_decode :
    Bridge → List ActiveSeq → List PrefillCtx → List PromptSubmission → Worker × ℕ → Running
unfolding fail_newest fail_all succeed
after_decode b seqs ctxs subs (w, status) =
    if status == 1
    then fail_newest b seqs ctxs w
    else if status == 0
    then succeed b seqs ctxs subs w
    else fail_all b seqs ctxs w

-- With the cancelled requests out of the way.
unfoldable pub decode_step : Bridge → Worker → List ActiveSeq → List PrefillCtx → Running
unfolding make_batch decode after_decode
decode_step b w seqs ctxs =
    let (batch, subs) = make_batch b.n_batch seqs ctxs in
    if is_empty seqs && (is_empty ctxs || leb b.n_batch (length seqs))
    then running w seqs ctxs
    else if is_empty batch
    then running w seqs ctxs
    else after_decode b seqs ctxs subs (decode b batch w)

unfoldable pub fused_step : Bridge → Running → Running
unfolding mark_cancelled retire_cancelled drop_abandoned decode_step
fused_step b r =
    let (w1, marked) = mark_cancelled b r.worker r.active in
    let (w2, seqs) = retire_cancelled b w1 marked in
    let (w3, ctxs) = drop_abandoned b w2 r.prefilling in decode_step b w3 seqs ctxs
