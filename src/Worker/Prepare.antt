-- ===== src/Worker/Prepare.antt =====
-- `prepare_all` of src/worker.cpp.
use radixforge.Common.{
  ℕ, ◌+◌, ◌-◌, not, ◌&&◌, List, [], ◌∷◌, Option, none, some, ltb, leb, if◌then◌else◌, length,
  is_empty,
}
use radixforge.Mapper.State.{KvMapper}
use radixforge.Mapper.Sequence.{PrepareResult, prepare_sequence, inspect_prefix}
use radixforge.Worker.State.{
  InferenceRequest, PrefillCtx, error, prompt_exceeds_context_window,
  internal_cache_preparation_error, Bridge, Worker, emit, set_mapper, give_up, is_cancelled,
}

-- What became of one request of the loop.
pub data Preparation : Type 0 where
  dropped : Worker → Preparation
  deferred : Worker → InferenceRequest → Preparation
  prepared : Worker → PrefillCtx → Preparation
  exhausted : Worker → InferenceRequest → Preparation

unfoldable pub resolve : Bridge → InferenceRequest → List ℕ
resolve b req =
    if is_empty req.prompt && not (is_empty req.messages)
    then b.apply_chat_template req.messages
    else req.prompt

abbrev pub new_ctx : InferenceRequest → List ℕ → PrepareResult → PrefillCtx
new_ctx req tokens prep = record {
  req = req;
  prep = prep;
  tokens = tokens;
  delta_start = 0;
  stats = record {
    prompt_n = length prep.delta;
    cache_n = prep.cached_pos;
    prompt_tokens = length tokens;
    predicted_n = 0;
  };
}

-- From `prepare_sequence` on; `none` is the exception `SequenceCapacityExhausted`.
unfoldable pub after_prepare :
    Worker → InferenceRequest → List ℕ → KvMapper × Option PrepareResult → Preparation
after_prepare w req tokens (m, none) = exhausted (set_mapper m w) req
after_prepare w req tokens (m, some prep) =
    if is_empty prep.delta
    then dropped (
        emit (error req.id internal_cache_preparation_error 500)
          (give_up prep.seq_id prep.leaf_node prep.leaf_node (set_mapper m w)))
    else prepared (set_mapper m w) (new_ctx req tokens prep)

-- From `inspect_prefix` on, for a request that fits.
unfoldable pub prepare_fitting : Worker → InferenceRequest → List ℕ → Preparation
unfolding after_prepare
prepare_fitting w req tokens =
    let a = inspect_prefix w.mapper tokens in
    if ltb a.ready_tokens a.pending_tokens
    then deferred w req
    else after_prepare w req tokens (prepare_sequence w.mapper tokens)

abbrev pub clamp : ℕ → InferenceRequest → InferenceRequest
clamp available req =
    if ltb available req.max_tokens then record req { max_tokens = available } else req

-- For a request that is not cancelled. `available` is positive unless the first test holds.
unfoldable pub prepare_live : Bridge → Worker → InferenceRequest → Preparation
unfolding resolve prepare_fitting
prepare_live b w req =
    let tokens = b.tokenize (resolve b req) in
    if leb b.n_ctx (length tokens + 4)
    then dropped (emit (error req.id prompt_exceeds_context_window 400) w)
    else prepare_fitting w (clamp (b.n_ctx - length tokens - 4) req) tokens

-- The body of the loop.
unfoldable pub prepare_one : Bridge → Worker → InferenceRequest → Preparation
unfolding prepare_live is_cancelled
prepare_one b w0 req0 =
    let (w, req, gone) = is_cancelled b req0 w0 in if gone then dropped w else prepare_live b w req

-- The loop over the requests behind one that found no sequence id: those not cancelled are queued.
unfoldable pub queue_rest : Bridge → Worker → List InferenceRequest → Worker × List InferenceRequest
unfolding is_cancelled
queue_rest b w0 [] = (w0, [])
queue_rest b w0 (req0 ∷ reqs) =
    let (w, req, gone) = is_cancelled b req0 w0 in
    let (w', rest) = queue_rest b w reqs in (w', if gone then rest else req ∷ rest)

pub record Prepared : Type 0 where
  pub ctxs : List PrefillCtx
  pub deferred : List InferenceRequest
  pub queued : List InferenceRequest

-- What one round of the loop adds to the rounds behind it.
unfoldable pub gather :
    Preparation
    → (Worker → Worker × Prepared)
    → (Worker → Worker × List InferenceRequest)
    → Worker × Prepared
gather (dropped w) next rest = next w
gather (deferred w req) next rest =
    let (w', p) = next w in (w', record p { deferred = req ∷ p.deferred })
gather (prepared w ctx) next rest = let (w', p) = next w in (w', record p { ctxs = ctx ∷ p.ctxs })
gather (exhausted w req) next rest =
    let (w', queued) = rest w in (w', record { ctxs = []; deferred = []; queued = req ∷ queued })

unfoldable pub prepare_all : Bridge → Worker → List InferenceRequest → Worker × Prepared
unfolding prepare_one gather queue_rest
prepare_all b w [] = (w, record { ctxs = []; deferred = []; queued = [] })
prepare_all b w (req ∷ reqs) =
    gather (prepare_one b w req) (λ w'. prepare_all b w' reqs) (λ w'. queue_rest b w' reqs)

-- The worker behind one round.
abbrev pub worker_of : Preparation → Worker
worker_of (dropped w) = w
worker_of (deferred w req) = w
worker_of (prepared w ctx) = w
worker_of (exhausted w req) = w
