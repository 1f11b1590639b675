-- ===== src/Worker/Quiet/Prepare.antt =====
-- `prepare_all` of src/worker.cpp keeps the mapper's accounting of ids and decodes nothing.
use radixforge.Common.{
  ℕ, ◌+◌, ◌-◌, List, [], ◌∷◌, Option, none, some, if_ind, ltb, leb, length, is_empty,
}
use radixforge.Mapper.State.{KvMapper}
use radixforge.Mapper.Sequence.{PrepareResult, prepare_sequence, inspect_prefix}
use radixforge.Mapper.Pool.Histories.{prepare, step}
use radixforge.Worker.State.{InferenceRequest, Bridge, Worker, set_mapper, is_cancelled}
use radixforge.Worker.Prepare.{
  Preparation, dropped, deferred, prepared, exhausted, resolve, after_prepare, prepare_fitting,
  clamp, prepare_live, prepare_one, queue_rest, Prepared, gather, prepare_all, worker_of,
}
use radixforge.Worker.Quiet.{
  Quiet, Quiet-refl, Quiet-trans, step-Quiet, emit-Quiet, give_up-Quiet, is_cancelled-Quiet,
}

after_prepare-Quiet :
    (w : Worker) (req : InferenceRequest) (tokens : List ℕ) (r : KvMapper × Option PrepareResult)
    → Quiet w (set_mapper (r.0) w)
    → Quiet w (worker_of (after_prepare w req tokens r))
unfolding after_prepare
after_prepare-Quiet w req tokens (m, none) q = q
after_prepare-Quiet w req tokens (m, some prep) q =
    if_ind (λ (p : Preparation). Quiet w (worker_of p)) (is_empty prep.delta) _ _
      (Quiet-trans q (
        Quiet-trans (give_up-Quiet prep.seq_id prep.leaf_node prep.leaf_node (set_mapper m w))
          (emit-Quiet _ _)))
      q

prepare_fitting-Quiet :
    (w : Worker) (req : InferenceRequest) (tokens : List ℕ)
    → Quiet w (worker_of (prepare_fitting w req tokens))
unfolding prepare_fitting step
prepare_fitting-Quiet w req tokens =
    let a = inspect_prefix w.mapper tokens in
    if_ind (λ (p : Preparation). Quiet w (worker_of p)) (ltb a.ready_tokens a.pending_tokens) _ _
      (Quiet-refl w)
      (after_prepare-Quiet w req tokens (prepare_sequence w.mapper tokens)
        (step-Quiet w (prepare tokens)))

prepare_live-Quiet :
    (b : Bridge) (w : Worker) (req : InferenceRequest) → Quiet w (worker_of (prepare_live b w req))
unfolding prepare_live
prepare_live-Quiet b w req =
    let tokens = b.tokenize (resolve b req) in
    if_ind (λ (p : Preparation). Quiet w (worker_of p)) (leb b.n_ctx (length tokens + 4)) _ _
      (emit-Quiet _ w) (prepare_fitting-Quiet w (clamp (b.n_ctx - length tokens - 4) req) tokens)

prepare_one-Quiet :
    (b : Bridge) (w : Worker) (req : InferenceRequest) → Quiet w (worker_of (prepare_one b w req))
unfolding prepare_one
prepare_one-Quiet b w0 req0 =
    let (w, req, gone) = is_cancelled b req0 w0 in
    Quiet-trans (is_cancelled-Quiet b req0 w0) (
      if_ind (λ (p : Preparation). Quiet w (worker_of p)) gone _ _ (Quiet-refl w)
        (prepare_live-Quiet b w req))

queue_rest-Quiet :
    (b : Bridge) (w : Worker) (reqs : List InferenceRequest) → Quiet w (queue_rest b w reqs).0
unfolding queue_rest
queue_rest-Quiet b w [] = Quiet-refl w
queue_rest-Quiet b w (req ∷ reqs) =
    Quiet-trans (is_cancelled-Quiet b req w) (queue_rest-Quiet b (is_cancelled b req w).0 reqs)

gather-Quiet :
    (p : Preparation) (next : Worker → Worker × Prepared)
    (rest : Worker → Worker × List InferenceRequest)
    → Quiet (worker_of p) (next (worker_of p)).0
    → Quiet (worker_of p) (rest (worker_of p)).0
    → Quiet (worker_of p) (gather p next rest).0
unfolding gather
gather-Quiet (dropped w) next rest q r = q
gather-Quiet (deferred w req) next rest q r = q
gather-Quiet (prepared w ctx) next rest q r = q
gather-Quiet (exhausted w req) next rest q r = r

pub prepare_all-Quiet :
    (b : Bridge) (w : Worker) (reqs : List InferenceRequest) → Quiet w (prepare_all b w reqs).0
unfolding prepare_all
prepare_all-Quiet b w [] = Quiet-refl w
prepare_all-Quiet b w (req ∷ reqs) =
    let w' = worker_of (prepare_one b w req) in
    Quiet-trans (prepare_one-Quiet b w req) (
      gather-Quiet (prepare_one b w req) (λ x. prepare_all b x reqs) (λ x. queue_rest b x reqs)
        (prepare_all-Quiet b (worker_of (prepare_one b w req)) reqs) (queue_rest-Quiet b w' reqs))
