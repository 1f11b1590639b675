-- ===== src/Worker/State.antt =====
-- The data of include/radixforge/server.h and the state of `InferenceWorker`.
--
-- The callbacks of a request are the ones that src/http_server.cpp sets, all four; what they are
-- called with is kept in `events`, and the request's `id` says whose they are. Clocks, the times of
-- `InferenceStats`, the counters of `PerfMetrics` and logging are left out.
use radixforge.Common.{ℕ, ◌+◌, Bool, true, false, List, [], ◌∷◌, ◌++◌, if◌then◌else◌, add64}
use radixforge.Tree.Evict.{release}
use radixforge.Mapper.State.{KvMapper}
use radixforge.Mapper.Sequence.{PrepareResult, release_sequence}

pub record ChatMessage : Type 0 where
  pub role : List ℕ
  pub content : List ℕ

pub record InferenceStats : Type 0 where
  pub prompt_n : ℕ
  pub cache_n : ℕ
  pub prompt_tokens : ℕ
  pub predicted_n : ℕ

-- `on_cancel` is false once the callback has been reset. `temperature` and `top_p` go to
-- `create_sampler` alone.
pub record InferenceRequest : Type 0 where
  pub id : ℕ
  pub prompt : List ℕ
  pub messages : List ChatMessage
  pub max_tokens : ℕ
  pub on_cancel : Bool

pub record PrefillCtx : Type 0 where
  pub req : InferenceRequest
  pub prep : PrepareResult
  pub tokens : List ℕ
  pub delta_start : ℕ
  pub stats : InferenceStats

pub record ActiveSeq : Type 0 where
  pub req : InferenceRequest
  pub seq_id : ℕ
  pub leaf_node : ℕ
  pub pos : ℕ
  pub next_token : ℕ
  pub remaining : ℕ
  pub done : Bool
  pub notify_on_retire : Bool
  pub stats : InferenceStats
  pub cached_tokens : List ℕ

pub data ErrorMessage : Type 0 where
  prompt_exceeds_context_window : ErrorMessage
  internal_cache_preparation_error : ErrorMessage
  kv_cache_is_full : ErrorMessage
  inference_decode_failed : ErrorMessage
  inference_prefill_failed : ErrorMessage

-- A call of `on_token` with the piece and `is_last`, or of `on_error` with the status, for the
-- request with the id.
pub data Event : Type 0 where
  token : ℕ → List ℕ → Bool → Event
  error : ℕ → ErrorMessage → ℕ → Event

-- One entry of a `llama_batch`.
pub record BatchEntry : Type 0 where
  pub token : ℕ
  pub pos : ℕ
  pub seq_id : ℕ
  pub logits : Bool

-- What answers the worker: `LlamaBridge` with llama.cpp behind it, and the peers of the requests.
-- `decode n` is the status of the n-th call of `llama_decode`, where 0 is success, 1 a full cache and
-- any other number a failure; `sample n` is the n-th token sampled; `gone id n` is what the
-- request's `cancelled` answers to the n-th poll. Any behaviour over time is such functions.
pub record Bridge : Type 0 where
  pub n_ctx : ℕ
  pub n_batch : ℕ
  pub n_seq_max : ℕ
  pub apply_chat_template : List ChatMessage → List ℕ
  pub tokenize : List ℕ → List ℕ
  pub decode : ℕ → ℕ
  pub sample : ℕ → ℕ
  pub is_eog : ℕ → Bool
  pub token_to_piece : ℕ → List ℕ
  pub gone : ℕ → ℕ → Bool

-- `mapper.tree` is the worker's `tree_` too. `batches` has the batches of all calls of
-- `llama_decode`; `polls` and `samples` count those calls.
pub record Worker : Type 0 where
  pub mapper : KvMapper
  pub queue : List InferenceRequest
  pub polls : ℕ
  pub samples : ℕ
  pub batches : List (List BatchEntry)
  pub events : List Event
  pub generating_sequences : ℕ
  pub decode_steps : ℕ
  pub prefill_tokens : ℕ
  pub prefill_calls : ℕ
  pub cancelled_requests : ℕ

abbrev pub new_worker : KvMapper → Worker
new_worker m = record {
  mapper = m;
  queue = [];
  polls = 0;
  samples = 0;
  batches = [];
  events = [];
  generating_sequences = 0;
  decode_steps = 0;
  prefill_tokens = 0;
  prefill_calls = 0;
  cancelled_requests = 0;
}

abbrev pub emit : Event → Worker → Worker
emit e w = record w { events = w.events ++ e ∷ [] }

abbrev pub set_mapper : KvMapper → Worker → Worker
set_mapper m w = record w { mapper = m }

-- `mapper_.release_sequence(seq_id, node)` and `tree_.release(leaf)`.
unfoldable pub give_up : ℕ → ℕ → ℕ → Worker → Worker
give_up s node leaf w =
    let m = release_sequence s node w.mapper in
    set_mapper (record m { tree = release leaf m.tree }) w

-- `record_cancelled_request`, which is what `on_cancel` calls.
abbrev pub record_cancelled_request : Worker → Worker
record_cancelled_request w = record w { cancelled_requests = add64 w.cancelled_requests 1 }

-- The request is reported as cancelled once. The third part is the answer.
unfoldable pub is_cancelled : Bridge → InferenceRequest → Worker → Worker × InferenceRequest × Bool
is_cancelled b req w0 =
    let w = record w0 { polls = w0.polls + 1 } in
    if b.gone req.id w0.polls
    then (if req.on_cancel
        then (record_cancelled_request w, record req { on_cancel = false }, true)
        else (w, req, true))
    else (w, req, false)

-- `queue_.push_back` and `push_front` of all of the deferred requests, last first.
unfoldable pub enqueue : InferenceRequest → Worker → Worker
enqueue req w = record w { queue = w.queue ++ req ∷ [] }

unfoldable pub defer_to_front : List InferenceRequest → Worker → Worker
defer_to_front deferred w = record w { queue = deferred ++ w.queue }
