-- ===== src/Worker/Retire.antt =====
-- How sequences leave `InferenceWorker` of src/worker.cpp: `retire`, cancellation and failure.
use radixforge.Common.{ℕ, Bool, true, false, List, [], ◌∷◌, if◌then◌else◌}
use radixforge.Mapper.Sequence.{extend_sequence}
use radixforge.Worker.State.{
  InferenceRequest, PrefillCtx, ActiveSeq, ErrorMessage, token, error, Bridge, Worker, emit,
  set_mapper, give_up, is_cancelled,
}

-- The first statement of `retire`: the node that the sequence is at.
unfoldable pub extend_if : Bridge → Bool → ActiveSeq → Worker → Worker × InferenceRequest × ℕ
unfolding is_cancelled
extend_if b false seq w = (w, seq.req, seq.leaf_node)
extend_if b true seq w0 =
    let (w, req, gone) = is_cancelled b seq.req w0 in
    if gone
    then (w, req, seq.leaf_node)
    else let (m, node) = extend_sequence seq.seq_id seq.leaf_node seq.cached_tokens w.mapper in
      (set_mapper m w, req, node)

-- The second: the last call of `on_token`.
unfoldable pub finish_if : Bridge → Bool → InferenceRequest → Worker → Worker
unfolding is_cancelled
finish_if b false req w = w
finish_if b true req0 w0 =
    let (w, req, gone) = is_cancelled b req0 w0 in if gone then w else emit (token req.id [] true) w

unfoldable pub retire : Bridge → Bool → ActiveSeq → Worker → Worker
unfolding extend_if finish_if
retire b notify_client seq w0 =
    let (w, req, node) = extend_if b notify_client seq w0 in
    give_up seq.seq_id node seq.leaf_node (finish_if b notify_client req w)

-- The first loop of `fused_step`.
unfoldable pub mark_cancelled : Bridge → Worker → List ActiveSeq → Worker × List ActiveSeq
unfolding is_cancelled
mark_cancelled b w [] = (w, [])
mark_cancelled b w0 (seq ∷ seqs) =
    let (w, req, gone) = is_cancelled b seq.req w0 in
    let (w', rest) = mark_cancelled b w seqs in
    (w', record seq { req = req; done = if gone then true else seq.done } ∷ rest)

-- `remove_if` of the sequences that are done, each retired without notice.
unfoldable pub retire_cancelled : Bridge → Worker → List ActiveSeq → Worker × List ActiveSeq
unfolding retire
retire_cancelled b w [] = (w, [])
retire_cancelled b w (seq ∷ seqs) =
    let (w', rest) = retire_cancelled b (if seq.done then retire b false seq w else w) seqs in
    (w', if seq.done then rest else seq ∷ rest)

-- The same after the decode, with the notice that each asks for; a cancelled one is logged.
unfoldable pub retire_one : Bridge → ActiveSeq → Worker → Worker
unfolding retire is_cancelled
retire_one b seq w0 =
    let (w, req, gone) = is_cancelled b seq.req w0 in
    retire b seq.notify_on_retire (record seq { req = req }) w

unfoldable pub retire_completed : Bridge → Worker → List ActiveSeq → Worker × List ActiveSeq
unfolding retire_one
retire_completed b w [] = (w, [])
retire_completed b w (seq ∷ seqs) =
    let (w', rest) = retire_completed b (if seq.done then retire_one b seq w else w) seqs in
    (w', if seq.done then rest else seq ∷ rest)

unfoldable pub give_up_ctx : PrefillCtx → Worker → Worker
unfolding give_up
give_up_ctx ctx w = give_up ctx.prep.seq_id ctx.prep.leaf_node ctx.prep.leaf_node w

-- `remove_if` of the contexts whose requests are cancelled.
unfoldable pub drop_abandoned : Bridge → Worker → List PrefillCtx → Worker × List PrefillCtx
unfolding is_cancelled give_up_ctx
drop_abandoned b w [] = (w, [])
drop_abandoned b w0 (ctx ∷ ctxs) =
    let (w, req, gone) = is_cancelled b ctx.req w0 in
    let (w', rest) = drop_abandoned b (if gone then give_up_ctx ctx w else w) ctxs in
    (w', if gone then rest else record ctx { req = req } ∷ rest)

-- `on_error`, unless the request is cancelled.
unfoldable pub report : Bridge → InferenceRequest → ErrorMessage → ℕ → Worker → Worker
unfolding is_cancelled
report b req0 message status w0 =
    let (w, req, gone) = is_cancelled b req0 w0 in
    if gone then w else emit (error req.id message status) w

unfoldable pub fail_active : Bridge → ErrorMessage → ℕ → ActiveSeq → Worker → Worker
unfolding report give_up
fail_active b message status seq w =
    give_up seq.seq_id seq.leaf_node seq.leaf_node (report b seq.req message status w)

unfoldable pub fail_prefill : Bridge → ErrorMessage → ℕ → PrefillCtx → Worker → Worker
unfolding report give_up_ctx
fail_prefill b message status ctx w = give_up_ctx ctx (report b ctx.req message status w)

unfoldable pub fail_all_active : Bridge → ErrorMessage → ℕ → List ActiveSeq → Worker → Worker
unfolding fail_active
fail_all_active b message status [] w = w
fail_all_active b message status (seq ∷ seqs) w =
    fail_all_active b message status seqs (fail_active b message status seq w)

unfoldable pub fail_all_prefill : Bridge → ErrorMessage → ℕ → List PrefillCtx → Worker → Worker
unfolding fail_prefill
fail_all_prefill b message status [] w = w
fail_all_prefill b message status (ctx ∷ ctxs) w =
    fail_all_prefill b message status ctxs (fail_prefill b message status ctx w)

-- `back()` and `pop_back()` of a vector that is not empty.
unfoldable pub pop_back {ℓ} : {A : Type ℓ} → A → List A → List A × A
pop_back x [] = ([], x)
pop_back x (y ∷ ys) = let (rest, last) = pop_back y ys in (x ∷ rest, last)
