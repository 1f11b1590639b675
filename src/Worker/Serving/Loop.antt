-- ===== src/Worker/Serving/Loop.antt =====
-- `run` of src/worker.cpp: rounds and histories.
use radixforge.Common.{length, ◌≤◌, ◌≡◌, refl, sym, subst, List, [], ◌∷◌, arith, All, All-append}
use radixforge.Tree.Node.{empty_tree}
use radixforge.Mapper.State.{Config, new_mapper}
use radixforge.Mapper.Pool.{IsAccounted, new_mapper-IsAccounted}
use radixforge.Mapper.Pool.Histories.{empty_tree-IsWellFormed, empty_tree-owns}
use radixforge.Worker.State.{InferenceRequest, Bridge, Worker, new_worker, enqueue, defer_to_front}
use radixforge.Worker.Prepare.{prepare_all}
use radixforge.Worker.Step.{Running, running}
use radixforge.Worker.Loop.{
  take_in, count_generating, take_admitted, round, Action, arrive, turn, act, serve,
}
use radixforge.Worker.Quiet.Prepare.{prepare_all-Quiet}
use radixforge.Worker.Invariant.{IsActive, IsPending}
use radixforge.Worker.Invariant.Prepare.{prepare_all-IsPending}
use radixforge.Worker.Serving.{IsBatch, IsServing, Quiet-IsWorking}
use radixforge.Worker.Serving.Step.{fused_step-Serves}

-- A new worker.
abbrev pub idle : Config → Running
idle k = running (new_worker (new_mapper empty_tree k)) [] []

pub idle-IsServing : (b : Bridge) (k : Config) → IsServing b k (idle k)
idle-IsServing b k = record {
  working = record {
    accounted = new_mapper-IsAccounted empty_tree k empty_tree-IsWellFormed empty_tree-owns;
    batches = tt;
  };
  active = tt;
  pending = tt;
  fits = omega arith;
}

-- A change of the queue, or of a counter.
requeue-IsServing :
    {b : Bridge} {k : Config} {r : Running} (w : Worker)
    → w.mapper ≡ r.worker.mapper
    → w.batches ≡ r.worker.batches
    → IsServing b k r
    → IsServing b k (record r { worker = w })
requeue-IsServing {b} {k} {r} w e f v = record {
  working = record {
    accounted = subst (IsAccounted k) (sym e) v.working.accounted;
    batches = subst (All (IsBatch b)) (sym f) v.working.batches;
  };
  active = v.active;
  pending = v.pending;
  fits = v.fits;
}

take_in-IsServing :
    (b : Bridge) (k : Config) (r : Running) (reqs : List InferenceRequest)
    → IsServing b k r
    → IsServing b k (take_in b r reqs)
unfolding take_in defer_to_front
take_in-IsServing b k r reqs v =
    let kept = Quiet-IsWorking (prepare_all-Quiet b r.worker reqs) v.working in
    let p = (prepare_all b r.worker reqs).1 in
    record {
      working = record { accounted = kept.accounted; batches = kept.batches };
      active = v.active;
      pending =
          All-append (IsPending b) r.prefilling p.ctxs v.pending
            (prepare_all-IsPending b r.worker reqs);
      fits = v.fits;
    }

pub take_admitted-IsServing :
    (b : Bridge) (k : Config) (r : Running) → IsServing b k r → IsServing b k (take_admitted b r)
unfolding take_admitted
take_admitted-IsServing b k r v = take_in-IsServing b k _ _ (requeue-IsServing _ refl refl v)

pub count_generating-IsServing :
    (b : Bridge) (k : Config) (r : Running) → IsServing b k r → IsServing b k (count_generating r)
unfolding count_generating
count_generating-IsServing b k r v = requeue-IsServing _ refl refl v

pub round-IsServing :
    (b : Bridge) (k : Config) (r : Running) → IsServing b k r → IsServing b k (round b r)
unfolding round
round-IsServing b k r v =
    count_generating-IsServing b k _
      (fused_step-Serves b k _
        (count_generating-IsServing b k _ (take_admitted-IsServing b k r v))).serving

pub act-IsServing :
    (b : Bridge) (k : Config) (r : Running) (a : Action)
    → IsServing b k r
    → IsServing b k (act b r a)
unfolding act enqueue
act-IsServing b k r (arrive req) v = requeue-IsServing _ refl refl v
act-IsServing b k r turn v = round-IsServing b k r v

pub serve-IsServing :
    (b : Bridge) (k : Config) (r : Running) (actions : List Action)
    → IsServing b k r
    → IsServing b k (serve b r actions)
unfolding serve
serve-IsServing b k r [] v = v
serve-IsServing b k r (a ∷ actions) v =
    serve-IsServing b k (act b r a) actions (act-IsServing b k r a v)

-- Whatever requests arrive and whatever the model, the tokenizer and the peers answer: each batch
-- that `llama_decode` was called with has at most `n_batch` entries, each at a position below `n_ctx`.
pub serve-IsBatch :
    (b : Bridge) (k : Config) (actions : List Action)
    → All (IsBatch b) (serve b (idle k) actions).worker.batches
serve-IsBatch b k actions =
    (serve-IsServing b k (idle k) actions (idle-IsServing b k)).working.batches

-- After any history of a new worker each sequence that generates has tokens left to generate, which fit
-- in the context, and as many cached tokens as its position says; the cached part and the delta of
-- each context make up its prompt, which fits with what may be generated, and some of the delta is
-- still to be submitted; and the sequences that generate fit in one batch.
pub serve-IsActive :
    (b : Bridge) (k : Config) (actions : List Action)
    → let r = serve b (idle k) actions in
      All (IsActive b) r.active × All (IsPending b) r.prefilling × (length r.active ≤ b.n_batch)
serve-IsActive b k actions =
    let v = serve-IsServing b k (idle k) actions (idle-IsServing b k) in
    (v.active, v.pending, v.fits)
