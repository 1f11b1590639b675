-- ===== src/Worker/Serving/Drains.antt =====
-- `run` of src/worker.cpp ends what it has taken in.
use radixforge.Common.{
  append-nil, ℕ, zero, suc, ◌-◌, ◌≤◌, ◌<◌, ◌≡◌, refl, sym, ap, ◌∙◌, List, [], ◌∷◌, arith,
}
use radixforge.Mapper.State.{Config}
use radixforge.Worker.State.{InferenceRequest, PrefillCtx, ActiveSeq, Bridge, defer_to_front}
use radixforge.Worker.Prepare.{prepare_all}
use radixforge.Worker.Step.{Running}
use radixforge.Worker.Loop.{
  admit, take_in, count_generating, take_admitted, round, Action, turn, act, serve,
}
use radixforge.Worker.Invariant.{load, prompt_load}
use radixforge.Worker.Serving.{IsServing, total_load}
use radixforge.Worker.Serving.Step.{fused_step-Serves}
use radixforge.Worker.Serving.Loop.{
  idle, take_admitted-IsServing, count_generating-IsServing, round-IsServing, idle-IsServing,
  serve-IsServing,
}

abbrev with_queue : Running → List InferenceRequest → Running
with_queue r queue = record r { worker = record (r.worker) { queue = queue } }

-- Nothing is admitted from an empty queue.
take_admitted-empty : (b : Bridge) (r : Running) → r.worker.queue ≡ [] → take_admitted b r ≡ r
unfolding take_admitted admit take_in prepare_all defer_to_front
take_admitted-empty b r e =
    let same : with_queue r [] ≡ r = ap (λ queue. with_queue r queue) (sym e) in
    ap (λ x. take_admitted b x) (sym same)
    ∙ ap (λ ctxs. record (with_queue r []) { prefilling = ctxs }) (append-nil r.prefilling)
    ∙ same

round-loads :
    (b : Bridge) (k : Config) (r : Running)
    → IsServing b k r
    → r.worker.queue ≡ []
    → 0 < b.n_batch
    → ((round b r).worker.queue ≡ []) × (total_load (round b r) ≤ total_load r - 1)
unfolding round count_generating
round-loads b k r v e room =
    let taken = take_admitted-empty b r e in
    let after =
      fused_step-Serves b k _
        (count_generating-IsServing b k _ (take_admitted-IsServing b k r v)) in
    (
      after.queue ∙ ap (λ (x : Running). x.worker.queue) taken ∙ e,
      omega (arith, after.loads room, ap (λ (x : Running). total_load x) taken),
    )

abbrev pub turns : ℕ → List Action
turns zero = []
turns (suc n) = turn ∷ turns n

-- An empty list has no load, and no other.
load-nil : (seqs : List ActiveSeq) → load seqs ≡ 0 → seqs ≡ []
load-nil [] e = refl
load-nil (seq ∷ seqs) e = absurd (omega (arith, e))

prompt_load-nil : (ctxs : List PrefillCtx) → prompt_load ctxs ≡ 0 → ctxs ≡ []
prompt_load-nil [] e = refl
prompt_load-nil (ctx ∷ ctxs) e = absurd (omega (arith, e))

drains :
    (b : Bridge) (k : Config) (r : Running) (n : ℕ)
    → IsServing b k r
    → r.worker.queue ≡ []
    → 0 < b.n_batch
    → total_load r ≤ n
    → let r' = serve b r (turns n) in
      (r'.worker.queue ≡ []) × (r'.active ≡ []) × (r'.prefilling ≡ [])
unfolding serve act
drains b k r zero v e room enough = (
  e,
  load-nil r.active (omega (arith, enough)),
  prompt_load-nil r.prefilling (omega (arith, enough)),
)
drains b k r (suc n) v e room enough =
    let next = round-loads b k r v e room in
    drains b k (round b r) n (round-IsServing b k r v) (next.0) room (omega (arith, next.1, enough))

-- If the queue is empty after a history of a new worker and `n_batch` is positive, then no request, no
-- sequence and no context is left after as many rounds as there are tokens that may still be submitted or
-- generated, one more for each sequence and two for each context, whatever the model, the decodes
-- and the peers answer.
pub serve-drains :
    (b : Bridge) (k : Config) (actions : List Action)
    → (serve b (idle k) actions).worker.queue ≡ []
    → 0 < b.n_batch
    → let r = serve b (idle k) actions in
      let r' = serve b r (turns (total_load r)) in
      (r'.worker.queue ≡ []) × (r'.active ≡ []) × (r'.prefilling ≡ [])
serve-drains b k actions e room =
    let r = serve b (idle k) actions in
    drains b k r (total_load r) (serve-IsServing b k (idle k) actions (idle-IsServing b k)) e room
      (omega arith)
