-- ===== src/Worker/Loop.antt =====
-- `run` of src/worker.cpp, round by round, with the calls that other threads make of the worker.
use radixforge.Common.{ℕ, ◌+◌, ◌-◌, false, List, [], ◌∷◌, ◌++◌, ltb, if◌then◌else◌, length}
use radixforge.Worker.State.{
  InferenceRequest, PrefillCtx, ActiveSeq, Bridge, Worker, enqueue, defer_to_front,
}
use radixforge.Worker.Prepare.{prepare_all}
use radixforge.Worker.Retire.{retire, give_up_ctx}
use radixforge.Worker.Step.{Running, running, fused_step}

-- The loop that admits from the front of the queue; `n` sequences are there.
unfoldable pub admit : ℕ → ℕ → List InferenceRequest → List InferenceRequest × List InferenceRequest
admit max_generating n [] = ([], [])
admit max_generating n (req ∷ reqs) =
    let (admitted, queue) = admit max_generating (n + 1) reqs in
    if ltb n max_generating then (req ∷ admitted, queue) else ([], req ∷ reqs)

abbrev pub set_generating : ℕ → Worker → Worker
set_generating n w = record w { generating_sequences = n }

-- What is prepared of the admitted requests; the others go back to the front of the queue, those
-- without a sequence id first.
unfoldable pub take_in : Bridge → Running → List InferenceRequest → Running
unfolding prepare_all defer_to_front
take_in b r admitted =
    let (w, p) = prepare_all b r.worker admitted in
    record r {
      worker = defer_to_front (p.queued ++ p.deferred) w;
      prefilling = r.prefilling ++ p.ctxs;
    }

unfoldable pub count_generating : Running → Running
count_generating r = record r { worker = set_generating (length r.active) r.worker }

unfoldable pub take_admitted : Bridge → Running → Running
unfolding admit take_in
take_admitted b r =
    let (admitted, queue) =
      admit (b.n_seq_max - 1) (length r.active + length r.prefilling) r.worker.queue in
    take_in b (record r { worker = record (r.worker) { queue = queue } }) admitted

-- The body of the `while` loop. A worker that would wait for a request changes nothing here.
unfoldable pub round : Bridge → Running → Running
unfolding take_admitted count_generating fused_step
round b r = count_generating (fused_step b (count_generating (take_admitted b r)))

unfoldable pub retire_all : Bridge → List ActiveSeq → Worker → Worker
unfolding retire
retire_all b [] w = w
retire_all b (seq ∷ seqs) w = retire_all b seqs (retire b false seq w)

unfoldable pub give_up_all : List PrefillCtx → Worker → Worker
unfolding give_up_ctx
give_up_all [] w = w
give_up_all (ctx ∷ ctxs) w = give_up_all ctxs (give_up_ctx ctx w)

-- Behind the loop, once `running_` is false.
unfoldable pub shut_down : Bridge → Running → Running
unfolding retire_all give_up_all
shut_down b r =
    running (set_generating 0 (give_up_all r.prefilling (retire_all b r.active r.worker))) [] []

-- `enqueue` by a thread of the server, between two rounds as between any two steps of one; the
-- queue is read at the start of a round alone, or given back to at the front.
pub data Action : Type 0 where
  arrive : InferenceRequest → Action
  turn : Action

unfoldable pub act : Bridge → Running → Action → Running
unfolding round
act b r (arrive req) = record r { worker = enqueue req r.worker }
act b r turn = round b r

unfoldable pub serve : Bridge → Running → List Action → Running
unfolding act
serve b r [] = r
serve b r (a ∷ actions) = serve b (act b r a) actions
