-- ===== src/Worker/Answers/Step.antt =====
-- `fused_step` of src/worker.cpp neither forgets a request nor answers it twice.
use radixforge.Common.{
  ℕ, ◌+◌, ◌-◌, ◌≡◌, refl, ◌∙◌, ◌&&◌, ◌||◌, List, [], ◌∷◌, arith, ◌==◌, leb, if_ind, length,
  is_empty, All, All-append,
}
use radixforge.Worker.State.{
  PrefillCtx, ActiveSeq, BatchEntry, kv_cache_is_full, inference_decode_failed,
  inference_prefill_failed, Bridge, Worker,
}
use radixforge.Worker.Batch.{PromptSubmission, make_batch, sum_tokens}
use radixforge.Worker.Retire.{
  mark_cancelled, retire_cancelled, retire_completed, drop_abandoned, fail_all_active, pop_back,
}
use radixforge.Worker.Finish.{commit, advance_all, activate_all}
use radixforge.Worker.Step.{
  Running, running, llama_decode, decode, fail_newest, fail_all, count_prefill, count_step, succeed,
  after_decode, decode_step, fused_step,
}
use radixforge.Worker.Invariant.Batch.{Aligned, submit-Aligned}
use radixforge.Worker.Answers.{
  IsPatient, tally, tally-append, asks_ctx, asks_seq, answers, fail_active-answers,
  fail_prefill-answers, fail_all_active-answers, fail_all_prefill-answers, tally-pop_back,
}
use radixforge.Worker.Answers.Retire.{
  IsLive, mark_cancelled-answers, retire_cancelled-answers, retire_completed-answers,
  drop_abandoned-answers,
}
use radixforge.Worker.Answers.Finish.{commit-answers, advance_all-answers}
use radixforge.Worker.Answers.Activate.{activate_all-answers}

-- The ends of answers to `id`, and the sequences and contexts that still work for one.
abbrev pub account : ℕ → Running → ℕ
account id r = answers id r.worker + tally (asks_seq id) r.active + tally (asks_ctx id) r.prefilling

pub record Accounts (id n : ℕ) (r : Running) : Type 0 where
  pub sum : account id r ≡ n
  pub live : All IsLive r.active

-- What a worker with the same answers accounts for.
over : {id n m : ℕ} (r : Running) → m ≡ n → Accounts id m r → Accounts id n r
over r e a = record { sum = a.sum ∙ e; live = a.live }

decode-answers :
    (b : Bridge) (id : ℕ) (batch : List BatchEntry) (w : Worker)
    → answers id (decode b batch w).0 ≡ answers id w
unfolding decode llama_decode
decode-answers b id batch w =
    let P = λ (r : Worker × ℕ). answers id (r.0) ≡ answers id w in
    let (w', status) = llama_decode b batch w in
    if_ind P (status == 1) _ _ (if_ind P _ _ _ refl refl) refl

IsLive-pop_back :
    (seq : ActiveSeq) (seqs : List ActiveSeq)
    → All IsLive (seq ∷ seqs)
    → All IsLive (pop_back seq seqs).0
unfolding pop_back
IsLive-pop_back seq [] h = tt
IsLive-pop_back seq (next ∷ seqs) h = (h.0, IsLive-pop_back next seqs (h.1))

module _ (b : Bridge) (id : ℕ) (patient : IsPatient b id) where
  fail_newest-Accounts :
      (seqs : List ActiveSeq) (ctxs : List PrefillCtx) (w : Worker)
      → All IsLive seqs
      → Accounts id (account id (running w seqs ctxs)) (fail_newest b seqs ctxs w)
  unfolding fail_newest
  fail_newest-Accounts (seq ∷ seqs) ctxs w h =
      let failed = fail_active-answers b id patient kv_cache_is_full 503 (pop_back seq seqs).1 w in
      record {
        sum = omega (arith, failed, tally-pop_back (asks_seq id) seq seqs);
        live = IsLive-pop_back seq seqs h;
      }
  fail_newest-Accounts [] (ctx ∷ ctxs) w h =
      let failed = fail_prefill-answers b id patient kv_cache_is_full 503 (pop_back ctx ctxs).1 w in
      record { sum = omega (arith, failed, tally-pop_back (asks_ctx id) ctx ctxs); live = tt }
  fail_newest-Accounts [] [] w h = record { sum = refl; live = tt }

  fail_all-Accounts :
      (seqs : List ActiveSeq) (ctxs : List PrefillCtx) (w : Worker)
      → Accounts id (account id (running w seqs ctxs)) (fail_all b seqs ctxs w)
  unfolding fail_all
  fail_all-Accounts seqs ctxs w =
      let w' = fail_all_active b inference_decode_failed 500 seqs w in
      record {
        sum = omega (
          arith,
          fail_all_active-answers b id patient inference_decode_failed 500 seqs w,
          fail_all_prefill-answers b id patient inference_prefill_failed 500 ctxs w',
        );
        live = tt;
      }

  succeed-Accounts :
      (seqs : List ActiveSeq) (ctxs : List PrefillCtx) (subs : List PromptSubmission) (w : Worker)
      → All IsLive seqs
      → Aligned ctxs subs
      → Accounts id (account id (running w seqs ctxs)) (succeed b seqs ctxs subs w)
  unfolding succeed
  succeed-Accounts seqs ctxs subs w0 h aligned =
      let counted = count_prefill (sum_tokens subs) (count_step w0) in
      let (w1, pending) = commit counted ctxs subs in
      let (w2, advanced) = advance_all b w1 seqs in
      let (w3, left) = retire_completed b w2 advanced in
      let newly_active = (activate_all b w3 pending).2 in
      let same : answers id counted ≡ answers id w0 = ground arith in
      let commits = commit-answers id ctxs subs counted aligned in
      let advances = advance_all-answers b id patient seqs w1 h in
      let retires = retire_completed-answers b id patient advanced w2 (advances.1) in
      let activates = activate_all-answers b id patient pending w3 in
      record {
        sum = omega (
          arith,
          same,
          commits.0,
          commits.1,
          advances.0,
          retires.0,
          activates.0,
          tally-append (asks_seq id) left newly_active,
        );
        live = All-append IsLive left newly_active (retires.1) (activates.1);
      }

  decode_step-Accounts :
      (seqs : List ActiveSeq) (ctxs : List PrefillCtx) (w : Worker)
      → All IsLive seqs
      → Accounts id (account id (running w seqs ctxs)) (decode_step b w seqs ctxs)
  unfolding decode_step make_batch after_decode
  decode_step-Accounts seqs ctxs w h =
      let (batch, subs) = make_batch b.n_batch seqs ctxs in
      let (w', status) = decode b batch w in
      let P = Accounts id (account id (running w seqs ctxs)) in
      let decoded : account id (running w' seqs ctxs) ≡ account id (running w seqs ctxs) =
        omega (arith, decode-answers b id batch w) in
      let aligned = submit-Aligned (b.n_batch - length seqs) (length seqs) ctxs in
      let waits : P (running w seqs ctxs) = record { sum = refl; live = h } in
      if_ind P (is_empty seqs && (is_empty ctxs || leb b.n_batch (length seqs))) _ _ waits (
        if_ind P (is_empty batch) _ _ waits (
          if_ind P (status == 1) _ _ (over _ decoded (fail_newest-Accounts seqs ctxs w' h)) (
            if_ind P (status == 0) _ _
              (over _ decoded (succeed-Accounts seqs ctxs subs w' h aligned))
              (over _ decoded (fail_all-Accounts seqs ctxs w')))))

  pub fused_step-Accounts :
      (r : Running) → All IsLive r.active → Accounts id (account id r) (fused_step b r)
  unfolding fused_step
  fused_step-Accounts r h =
      let (w1, marked) = mark_cancelled b r.worker r.active in
      let (w2, seqs) = retire_cancelled b w1 marked in
      let (w3, ctxs) = drop_abandoned b w2 r.prefilling in
      let marks = mark_cancelled-answers b id patient r.active r.worker h in
      let retires = retire_cancelled-answers b id patient marked w1 (marks.2) in
      let drops = drop_abandoned-answers b id patient r.prefilling w2 in
      let after = decode_step-Accounts seqs ctxs w3 (retires.2) in
      record {
        sum = omega (arith, after.sum, marks.0, marks.1, retires.0, retires.1, drops.0, drops.1);
        live = after.live;
      }
