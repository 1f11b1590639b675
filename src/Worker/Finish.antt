-- ===== src/Worker/Finish.antt =====
-- What `fused_step` of src/worker.cpp does once the decode has succeeded.
use radixforge.Common.{
  ℕ, ◌+◌, ◌-◌, Bool, true, false, List, [], ◌∷◌, ◌++◌, Option, none, some, ◌==◌, leb, if◌then◌else◌,
  length,
}
use radixforge.Mapper.Sequence.{mark_sequence_ready, set_sequence_cell_count}
use radixforge.Worker.State.{
  InferenceStats, InferenceRequest, PrefillCtx, ActiveSeq, token, Bridge, Worker, emit, set_mapper,
  is_cancelled,
}
use radixforge.Worker.Batch.{PromptSubmission}
use radixforge.Worker.Retire.{give_up_ctx}

-- A context with its entry of `prompt_logits`.
abbrev pub Pending : Type 0
Pending = PrefillCtx × Option ℕ

-- The loop over the submissions. A context without one is left as it is.
unfoldable pub commit_one : PrefillCtx → PromptSubmission → Worker → Worker × Pending
commit_one ctx0 sub w =
    let ctx = record ctx0 { delta_start = ctx0.delta_start + sub.tokens } in
    if sub.tokens == 0
    then (w, (ctx0, none))
    else if ctx.delta_start == length ctx.prep.delta
    then (
      set_mapper (mark_sequence_ready ctx.prep.seq_id ctx.prep.leaf_node w.mapper) w,
      (ctx, sub.logit_index),
    )
    else (w, (ctx, none))

unfoldable pub commit : Worker → List PrefillCtx → List PromptSubmission → Worker × List Pending
unfolding commit_one
commit w [] subs = (w, [])
commit w (ctx ∷ ctxs) [] = (w, [])
commit w (ctx ∷ ctxs) (sub ∷ subs) =
    let (w', p) = commit_one ctx sub w in let (w'', rest) = commit w' ctxs subs in (w'', p ∷ rest)

-- `sample`.
unfoldable pub sample : Bridge → Worker → Worker × ℕ
sample b w = (record w { samples = w.samples + 1 }, b.sample w.samples)

-- `on_token`, unless the request is cancelled.
unfoldable pub send : Bridge → InferenceRequest → List ℕ → Bool → Worker → Worker × InferenceRequest
unfolding is_cancelled
send b req0 piece last w0 =
    let (w, req, gone) = is_cancelled b req0 w0 in
    (if gone then w else emit (token req.id piece last) w, req)

-- The end of the loop over the sequences that generate, for one that goes on or has sent its last
-- token: `last || is_cancelled`.
unfoldable pub settle : Bridge → ℕ → ActiveSeq → Worker → Worker × ActiveSeq
unfolding is_cancelled
settle b new_tok seq w0 =
    if seq.remaining == 0
    then (w0, record seq { done = true })
    else let (w, req, gone) = is_cancelled b seq.req w0 in
      (
        w,
        if gone
            then record seq { req = req; done = true }
            else record seq { req = req; next_token = new_tok; pos = seq.pos + 1 },
      )

abbrev pub predicted : InferenceStats → InferenceStats
predicted stats = record stats { predicted_n = stats.predicted_n + 1 }

-- The body of that loop behind `sample`.
unfoldable pub advance_with : Bridge → ℕ → ActiveSeq → Worker → Worker × ActiveSeq
unfolding send settle
advance_with b new_tok seq0 w0 =
    if b.is_eog new_tok
    then (w0, record seq0 { done = true; notify_on_retire = true })
    else let seq = record seq0 { remaining = seq0.remaining - 1; stats = predicted seq0.stats } in
      let (w, req) = send b seq.req (b.token_to_piece new_tok) (seq.remaining == 0) w0 in
      settle b new_tok (record seq { req = req }) w

unfoldable pub advance : Bridge → ActiveSeq → Worker → Worker × ActiveSeq
unfolding sample advance_with
advance b seq w0 =
    let m = set_sequence_cell_count seq.seq_id (seq.pos + 1) w0.mapper in
    let (w, new_tok) = sample b (set_mapper m w0) in
    advance_with b new_tok (record seq { cached_tokens = seq.cached_tokens ++ seq.next_token ∷ [] })
      w

unfoldable pub advance_all : Bridge → Worker → List ActiveSeq → Worker × List ActiveSeq
unfolding advance
advance_all b w [] = (w, [])
advance_all b w (seq ∷ seqs) =
    let (w', seq') = advance b seq w in
    let (w'', rest) = advance_all b w' seqs in (w'', seq' ∷ rest)

-- What becomes of one context: it stays in `prefilling`, is erased from it, or is newly active.
pub data Activation : Type 0 where
  stays : PrefillCtx → Activation
  leaves : Activation
  activates : ActiveSeq → Activation

abbrev pub new_active : PrefillCtx → ℕ → ActiveSeq
new_active ctx first_tok = record {
  req = ctx.req;
  seq_id = ctx.prep.seq_id;
  leaf_node = ctx.prep.leaf_node;
  pos = ctx.prep.cached_pos + length ctx.prep.delta;
  next_token = first_tok;
  remaining = ctx.req.max_tokens - 1;
  done = false;
  notify_on_retire = false;
  stats = record (ctx.stats) { predicted_n = 1 };
  cached_tokens = ctx.tokens;
}

-- Behind the sampling of the first token.
unfoldable pub activate_with : Bridge → ℕ → PrefillCtx → Worker → Worker × Activation
unfolding give_up_ctx
activate_with b first_tok ctx w =
    let first_is_last = leb ctx.req.max_tokens 1 in
    let w' = emit (token ctx.req.id (b.token_to_piece first_tok) first_is_last) w in
    if b.is_eog first_tok
    then (give_up_ctx ctx (emit (token ctx.req.id [] true) w), leaves)
    else if first_is_last
    then (give_up_ctx ctx w', leaves)
    else (w', activates (new_active ctx first_tok))

-- The body of the last loop, for a context whose prompt is complete.
unfoldable pub activate : Bridge → PrefillCtx → Worker → Worker × Activation
unfolding is_cancelled sample activate_with give_up_ctx
activate b ctx w0 =
    let (w, req, gone) = is_cancelled b ctx.req w0 in
    let (w', first_tok) = sample b w in
    if gone
    then (give_up_ctx ctx w, leaves)
    else activate_with b first_tok (record ctx { req = req }) w'

unfoldable pub activate_if : Bridge → Pending → Worker → Worker × Activation
unfolding activate
activate_if b (ctx, none) w = (w, stays ctx)
activate_if b (ctx, some logit_index) w = activate b ctx w

abbrev pub still : Activation → List PrefillCtx → List PrefillCtx
still (stays ctx) ctxs = ctx ∷ ctxs
still leaves ctxs = ctxs
still (activates seq) ctxs = ctxs

abbrev pub newly : Activation → List ActiveSeq → List ActiveSeq
newly (stays ctx) seqs = seqs
newly leaves seqs = seqs
newly (activates seq) seqs = seq ∷ seqs

-- The last loop: what `prefilling` is left with, and `newly_active`.
unfoldable pub activate_all :
    Bridge → Worker → List Pending → Worker × List PrefillCtx × List ActiveSeq
unfolding activate_if
activate_all b w [] = (w, [], [])
activate_all b w (p ∷ ps) =
    let (w', a) = activate_if b p w in
    let (w'', prefilling, newly_active) = activate_all b w' ps in
    (w'', still a prefilling, newly a newly_active)
