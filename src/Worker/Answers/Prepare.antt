-- ===== src/Worker/Answers/Prepare.antt =====
-- `prepare_all` of src/worker.cpp drops no request without an answer.
use radixforge.Common.{
  ℕ, ◌+◌, ◌-◌, ◌≡◌, refl, ap, Bool, true, false, List, [], ◌∷◌, Option, none, some, arith,
  if◌then◌else◌, if_ind, ltb, leb, length, is_empty, indicator, Bool-cases, inl, inr,
}
use radixforge.Mapper.State.{KvMapper}
use radixforge.Mapper.Sequence.{PrepareResult, prepare_sequence, inspect_prefix}
use radixforge.Worker.State.{
  InferenceRequest, error, prompt_exceeds_context_window, internal_cache_preparation_error, Bridge,
  Worker, set_mapper, give_up, is_cancelled,
}
use radixforge.Worker.Prepare.{
  Preparation, dropped, deferred, prepared, exhausted, resolve, after_prepare, prepare_fitting,
  clamp, prepare_live, prepare_one, queue_rest, Prepared, gather, prepare_all, worker_of,
}
use radixforge.Worker.Answers.{
  IsPatient, tally, asks, asks_ctx, answers, emit-answers, give_up-answers, is_cancelled-Polls,
}

-- 1 for a request `id` that goes on.
abbrev carries : ℕ → Preparation → ℕ
carries id (dropped w) = 0
carries id (deferred w req) = asks id req
carries id (prepared w ctx) = asks_ctx id ctx
carries id (exhausted w req) = asks id req

abbrev Balanced : ℕ → Worker → InferenceRequest → Preparation → Type 0
Balanced id w req p = answers id (worker_of p) + carries id p ≡ answers id w + asks id req

abbrev pub carried : ℕ → Prepared → ℕ
carried id p = tally (asks_ctx id) p.ctxs + tally (asks id) p.deferred + tally (asks id) p.queued

module _ (id : ℕ) where
  after_prepare-Balanced :
      (w : Worker) (req : InferenceRequest) (tokens : List ℕ) (r : KvMapper × Option PrepareResult)
      → Balanced id w req (after_prepare w req tokens r)
  unfolding after_prepare
  after_prepare-Balanced w req tokens (m, none) = refl
  after_prepare-Balanced w req tokens (m, some prep) =
      let w' = give_up prep.seq_id prep.leaf_node prep.leaf_node (set_mapper m w) in
      if_ind (Balanced id w req) (is_empty prep.delta) _ _
        (omega (
          arith,
          emit-answers id (error req.id internal_cache_preparation_error 500) w',
          give_up-answers id prep.seq_id prep.leaf_node prep.leaf_node (set_mapper m w),
        ))
        refl

  prepare_fitting-Balanced :
      (w : Worker) (req : InferenceRequest) (tokens : List ℕ)
      → Balanced id w req (prepare_fitting w req tokens)
  unfolding prepare_fitting
  prepare_fitting-Balanced w req tokens =
      let a = inspect_prefix w.mapper tokens in
      if_ind (Balanced id w req) (ltb a.ready_tokens a.pending_tokens) _ _ refl
        (after_prepare-Balanced w req tokens (prepare_sequence w.mapper tokens))

  prepare_live-Balanced :
      (b : Bridge) (w : Worker) (req : InferenceRequest) → Balanced id w req (prepare_live b w req)
  unfolding prepare_live
  prepare_live-Balanced b w req =
      let tokens = b.tokenize (resolve b req) in
      let clamped = clamp (b.n_ctx - length tokens - 4) req in
      let same : clamped.id ≡ req.id = ground arith in
      if_ind (Balanced id w req) (leb b.n_ctx (length tokens + 4)) _ _
        (omega (arith, emit-answers id (error req.id prompt_exceeds_context_window 400) w))
        (omega (arith, prepare_fitting-Balanced w clamped tokens, ap (λ i. indicator id i) same))

module _ (b : Bridge) (id : ℕ) (patient : IsPatient b id) where
  prepare_one-Balanced :
      (w : Worker) (req : InferenceRequest) → Balanced id w req (prepare_one b w req)
  unfolding prepare_one
  prepare_one-Balanced w0 req0 =
      let (w, req, gone) = is_cancelled b req0 w0 in
      let polled = is_cancelled-Polls b id patient req0 w0 in
      elim (Bool-cases (is_cancelled b req0 w0).2) [
        | inl e ↦ rw e (omega (arith, polled.before, polled.stays e))
        | inr e ↦ rw e (omega (arith, polled.before, polled.own, prepare_live-Balanced id b w req))
      ]

  queue_rest-answers :
      (reqs : List InferenceRequest) (w : Worker)
      → let (w', queued) = queue_rest b w reqs in
        answers id w' + tally (asks id) queued ≡ answers id w + tally (asks id) reqs
  unfolding queue_rest
  queue_rest-answers [] w = refl
  queue_rest-answers (req0 ∷ reqs) w0 =
      let (w, req, gone) = is_cancelled b req0 w0 in
      let polled = is_cancelled-Polls b id patient req0 w0 in
      let ih = queue_rest-answers reqs (is_cancelled b req0 w0).0 in
      omega
        (arith, ih, polled.before, kept gone req (queue_rest b w reqs).1 polled.stays polled.own)
    where
      kept :
          (d : Bool) (req : InferenceRequest) (rest : List InferenceRequest)
          → (d ≡ true → asks id req0 ≡ 0)
          → asks id req ≡ asks id req0
          → tally (asks id) (if d then rest else req ∷ rest) ≡ asks id req0 + tally (asks id) rest
      kept true req rest stays same = omega (arith, stays refl)
      kept false req rest stays same = omega (arith, same)

  gather-answers :
      (p : Preparation) (next : Worker → Worker × Prepared)
      (rest : Worker → Worker × List InferenceRequest) (n : ℕ)
      → answers id (next (worker_of p)).0 + carried id (next (worker_of p)).1
        ≡ answers id (worker_of p) + n
      → answers id (rest (worker_of p)).0 + tally (asks id) (rest (worker_of p)).1
        ≡ answers id (worker_of p) + n
      → answers id (gather p next rest).0 + carried id (gather p next rest).1
        ≡ answers id (worker_of p) + carries id p + n
  unfolding gather
  gather-answers (dropped w) next rest n h k = omega (arith, h)
  gather-answers (deferred w req) next rest n h k = omega (arith, h)
  gather-answers (prepared w ctx) next rest n h k = omega (arith, h)
  gather-answers (exhausted w req) next rest n h k = omega (arith, k)

  pub prepare_all-answers :
      (reqs : List InferenceRequest) (w : Worker)
      → let (w', p) = prepare_all b w reqs in
        answers id w' + carried id p ≡ answers id w + tally (asks id) reqs
  unfolding prepare_all
  prepare_all-answers [] w = omega arith
  prepare_all-answers (req ∷ reqs) w =
      let p = prepare_one b w req in
      omega (
        arith,
        prepare_one-Balanced w req,
        gather-answers p (λ x. prepare_all b x reqs) (λ x. queue_rest b x reqs)
            (tally (asks id) reqs) (prepare_all-answers reqs (worker_of (prepare_one b w req)))
            (queue_rest-answers reqs (worker_of p)),
      )
