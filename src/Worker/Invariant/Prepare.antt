-- ===== src/Worker/Invariant/Prepare.antt =====
-- The contexts that `prepare_all` of src/worker.cpp makes.
use radixforge.Common.{
  not-is_empty-length, ℕ, ◌+◌, ◌-◌, ◌≤◌, ◌<◌, ◌≡◌, ap, false, List, [], ◌∷◌, Option, none, some,
  arith, if_ind, ltb, leb, length, is_empty, length-drop, All, Bool-cases, inl, inr,
}
use radixforge.Mapper.State.{KvMapper}
use radixforge.Mapper.Sequence.{PrepareResult, prepare_sequence, inspect_prefix}
use radixforge.Mapper.Delta.{DropsTo, prepare_sequence-DropsTo}
use radixforge.Worker.State.{InferenceRequest, Bridge, Worker, is_cancelled}
use radixforge.Worker.Prepare.{
  Preparation, dropped, deferred, prepared, exhausted, resolve, new_ctx, after_prepare,
  prepare_fitting, clamp, prepare_live, prepare_one, queue_rest, Prepared, gather, prepare_all,
  worker_of,
}
use radixforge.Worker.Invariant.{IsPending}

abbrev MakesPending : Bridge → Preparation → Type 0
MakesPending b (dropped w) = Unit
MakesPending b (deferred w req) = Unit
MakesPending b (prepared w ctx) = IsPending b ctx
MakesPending b (exhausted w req) = Unit

new_ctx-IsPending :
    (b : Bridge) (req : InferenceRequest) (tokens : List ℕ) (prep : PrepareResult)
    → length tokens + req.max_tokens + 4 ≤ b.n_ctx
    → DropsTo tokens (some prep)
    → is_empty prep.delta ≡ false
    → IsPending b (new_ctx req tokens prep)
new_ctx-IsPending b req tokens prep fits drops more =
    let some_left : 0 < length prep.delta = not-is_empty-length prep.delta more in
    let sizes = ap (length {A = ℕ}) drops in
    (((omega (arith, some_left, sizes, length-drop prep.cached_pos tokens)), fits), some_left)

after_prepare-MakesPending :
    (b : Bridge) (w : Worker) (req : InferenceRequest) (tokens : List ℕ)
    (r : KvMapper × Option PrepareResult)
    → length tokens + req.max_tokens + 4 ≤ b.n_ctx
    → DropsTo tokens (r.1)
    → MakesPending b (after_prepare w req tokens r)
unfolding after_prepare
after_prepare-MakesPending b w req tokens (m, none) fits drops = tt
after_prepare-MakesPending b w req tokens (m, some prep) fits drops =
    elim (Bool-cases (is_empty prep.delta)) [
      | inl e ↦ rw e tt
      | inr e ↦ rw e (new_ctx-IsPending b req tokens prep fits drops e)
    ]

prepare_fitting-MakesPending :
    (b : Bridge) (w : Worker) (req : InferenceRequest) (tokens : List ℕ)
    → length tokens + req.max_tokens + 4 ≤ b.n_ctx
    → MakesPending b (prepare_fitting w req tokens)
unfolding prepare_fitting
prepare_fitting-MakesPending b w req tokens fits =
    let a = inspect_prefix w.mapper tokens in
    if_ind (MakesPending b) (ltb a.ready_tokens a.pending_tokens) _ _ tt (
      after_prepare-MakesPending b w req tokens (prepare_sequence w.mapper tokens) fits
        (prepare_sequence-DropsTo w.mapper tokens))

clamp_fits : (available : ℕ) (req : InferenceRequest) → (clamp available req).max_tokens ≤ available
clamp_fits available req = ground arith

prepare_live-MakesPending :
    (b : Bridge) (w : Worker) (req : InferenceRequest) → MakesPending b (prepare_live b w req)
unfolding prepare_live
prepare_live-MakesPending b w req =
    let tokens = b.tokenize (resolve b req) in
    let available = b.n_ctx - length tokens - 4 in
    elim (Bool-cases (leb b.n_ctx (length tokens + 4))) [
      | inl e ↦ rw e tt
      | inr e ↦
          let room : length tokens + 4 < b.n_ctx = ground arith in
          rw e (
            prepare_fitting-MakesPending b w (clamp available req) tokens
              (omega (arith, clamp_fits available req, room)))
    ]

prepare_one-MakesPending :
    (b : Bridge) (w : Worker) (req : InferenceRequest) → MakesPending b (prepare_one b w req)
unfolding prepare_one
prepare_one-MakesPending b w0 req0 =
    let (w, req, gone) = is_cancelled b req0 w0 in
    if_ind (MakesPending b) gone _ _ tt (prepare_live-MakesPending b w req)

gather-IsPending :
    (b : Bridge) (p : Preparation) (next : Worker → Worker × Prepared)
    (rest : Worker → Worker × List InferenceRequest)
    → MakesPending b p
    → All (IsPending b) (next (worker_of p)).1.ctxs
    → All (IsPending b) (gather p next rest).1.ctxs
unfolding gather
gather-IsPending b (dropped w) next rest h ih = ih
gather-IsPending b (deferred w req) next rest h ih = ih
gather-IsPending b (prepared w ctx) next rest h ih = (h, ih)
gather-IsPending b (exhausted w req) next rest h ih = tt

pub prepare_all-IsPending :
    (b : Bridge) (w : Worker) (reqs : List InferenceRequest)
    → All (IsPending b) (prepare_all b w reqs).1.ctxs
unfolding prepare_all
prepare_all-IsPending b w [] = tt
prepare_all-IsPending b w (req ∷ reqs) =
    gather-IsPending b (prepare_one b w req) (λ x. prepare_all b x reqs) (λ x. queue_rest b x reqs)
      (prepare_one-MakesPending b w req)
      (prepare_all-IsPending b (worker_of (prepare_one b w req)) reqs)
