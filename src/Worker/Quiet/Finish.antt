-- ===== src/Worker/Quiet/Finish.antt =====
-- What src/worker.cpp does behind a decode keeps the mapper's accounting of ids.
use radixforge.Common.{
  ℕ, ◌+◌, ◌-◌, refl, Bool, List, [], ◌∷◌, ◌++◌, none, some, ◌==◌, leb, if_ind, length,
}
use radixforge.Mapper.Sequence.{set_sequence_cell_count}
use radixforge.Mapper.Pool.Histories.{mark_ready, set_cell_count, step}
use radixforge.Worker.State.{
  InferenceRequest, PrefillCtx, ActiveSeq, Bridge, Worker, set_mapper, is_cancelled,
}
use radixforge.Worker.Batch.{PromptSubmission}
use radixforge.Worker.Finish.{
  Pending, commit_one, commit, sample, send, settle, predicted, advance_with, advance, advance_all,
  Activation, activate_with, activate, activate_if, activate_all,
}
use radixforge.Worker.Quiet.{
  Quiet, Quiet-refl, Quiet-trans, Quiet-same, Quiet-if, step-Quiet, emit-Quiet, give_up_ctx-Quiet,
  is_cancelled-Quiet,
}

commit_one-Quiet :
    (ctx : PrefillCtx) (sub : PromptSubmission) (w : Worker) → Quiet w (commit_one ctx sub w).0
unfolding commit_one step
commit_one-Quiet ctx sub w =
    let P = λ (r : Worker × Pending). Quiet w (r.0) in
    if_ind P (sub.tokens == 0) _ _ (Quiet-refl w) (
      if_ind P (ctx.delta_start + sub.tokens == length ctx.prep.delta) _ _
        (step-Quiet w (mark_ready ctx.prep.seq_id ctx.prep.leaf_node)) (Quiet-refl w))

pub commit-Quiet :
    (w : Worker) (ctxs : List PrefillCtx) (subs : List PromptSubmission)
    → Quiet w (commit w ctxs subs).0
unfolding commit
commit-Quiet w [] subs = Quiet-refl w
commit-Quiet w (ctx ∷ ctxs) [] = Quiet-refl w
commit-Quiet w (ctx ∷ ctxs) (sub ∷ subs) =
    Quiet-trans (commit_one-Quiet ctx sub w) (commit-Quiet (commit_one ctx sub w).0 ctxs subs)

sample-Quiet : (b : Bridge) (w : Worker) → Quiet w (sample b w).0
unfolding sample
sample-Quiet b w = Quiet-same w (sample b w).0 refl refl refl

send-Quiet :
    (b : Bridge) (req : InferenceRequest) (piece : List ℕ) (last : Bool) (w : Worker)
    → Quiet w (send b req piece last w).0
unfolding send
send-Quiet b req0 piece last w0 =
    let (w, req, gone) = is_cancelled b req0 w0 in
    Quiet-trans (is_cancelled-Quiet b req0 w0) (Quiet-if gone (Quiet-refl w) (emit-Quiet _ w))

settle-Quiet :
    (b : Bridge) (new_tok : ℕ) (seq : ActiveSeq) (w : Worker) → Quiet w (settle b new_tok seq w).0
unfolding settle
settle-Quiet b new_tok seq w =
    if_ind (λ (r : Worker × ActiveSeq). Quiet w (r.0)) (seq.remaining == 0) _ _ (Quiet-refl w)
      (is_cancelled-Quiet b seq.req w)

advance_with-Quiet :
    (b : Bridge) (new_tok : ℕ) (seq : ActiveSeq) (w : Worker)
    → Quiet w (advance_with b new_tok seq w).0
unfolding advance_with
advance_with-Quiet b new_tok seq0 w =
    let seq = record seq0 { remaining = seq0.remaining - 1; stats = predicted seq0.stats } in
    let (w', req) = send b seq.req (b.token_to_piece new_tok) (seq.remaining == 0) w in
    if_ind (λ (r : Worker × ActiveSeq). Quiet w (r.0)) (b.is_eog new_tok) _ _ (Quiet-refl w)
      (Quiet-trans (send-Quiet b seq.req (b.token_to_piece new_tok) (seq.remaining == 0) w)
        (settle-Quiet b new_tok (record seq { req = req }) w'))

advance-Quiet : (b : Bridge) (seq : ActiveSeq) (w : Worker) → Quiet w (advance b seq w).0
unfolding advance step
advance-Quiet b seq w =
    let w1 : Worker = set_mapper (set_sequence_cell_count seq.seq_id (seq.pos + 1) w.mapper) w in
    let (w2, new_tok) = sample b w1 in
    Quiet-trans (step-Quiet w (set_cell_count seq.seq_id (seq.pos + 1))) (
      Quiet-trans (sample-Quiet b w1) (
        advance_with-Quiet b new_tok
          (record seq { cached_tokens = seq.cached_tokens ++ seq.next_token ∷ [] }) w2))

pub advance_all-Quiet :
    (b : Bridge) (w : Worker) (seqs : List ActiveSeq) → Quiet w (advance_all b w seqs).0
unfolding advance_all
advance_all-Quiet b w [] = Quiet-refl w
advance_all-Quiet b w (seq ∷ seqs) =
    Quiet-trans (advance-Quiet b seq w) (advance_all-Quiet b (advance b seq w).0 seqs)

activate_with-Quiet :
    (b : Bridge) (first_tok : ℕ) (ctx : PrefillCtx) (w : Worker)
    → Quiet w (activate_with b first_tok ctx w).0
unfolding activate_with
activate_with-Quiet b first_tok ctx w =
    let P = λ (r : Worker × Activation). Quiet w (r.0) in
    if_ind P (b.is_eog first_tok) _ _ (Quiet-trans (emit-Quiet _ w) (give_up_ctx-Quiet ctx _)) (
      if_ind P (leb ctx.req.max_tokens 1) _ _
        (Quiet-trans (emit-Quiet _ w) (give_up_ctx-Quiet ctx _)) (emit-Quiet _ w))

activate-Quiet : (b : Bridge) (ctx : PrefillCtx) (w : Worker) → Quiet w (activate b ctx w).0
unfolding activate
activate-Quiet b ctx w0 =
    let (w, req, gone) = is_cancelled b ctx.req w0 in
    let (w', first_tok) = sample b w in
    Quiet-trans (is_cancelled-Quiet b ctx.req w0) (
      if_ind (λ (r : Worker × Activation). Quiet w (r.0)) gone _ _ (give_up_ctx-Quiet ctx w)
        (Quiet-trans (sample-Quiet b w)
          (activate_with-Quiet b first_tok (record ctx { req = req }) w')))

activate_if-Quiet : (b : Bridge) (p : Pending) (w : Worker) → Quiet w (activate_if b p w).0
unfolding activate_if
activate_if-Quiet b (ctx, none) w = Quiet-refl w
activate_if-Quiet b (ctx, some logit_index) w = activate-Quiet b ctx w

pub activate_all-Quiet :
    (b : Bridge) (w : Worker) (ps : List Pending) → Quiet w (activate_all b w ps).0
unfolding activate_all
activate_all-Quiet b w [] = Quiet-refl w
activate_all-Quiet b w (p ∷ ps) =
    Quiet-trans (activate_if-Quiet b p w) (activate_all-Quiet b (activate_if b p w).0 ps)
