-- ===== src/Worker/Serving.antt =====
-- What holds of the loop of src/worker.cpp between two rounds, and what one decode keeps of it.
pub mod Outcomes
pub mod Step
pub mod Loop
pub mod Drains
use radixforge.Common.{
  ℕ, zero, suc, ◌+◌, ◌-◌, ◌≤◌, ◌<◌, ◌≡◌, refl, ◌∙◌, sym, subst, Bool, true, false, List, [], ◌∷◌,
  ◌++◌, ◌==◌, arith, if◌then◌else◌, if_ind, length, All, All-append,
}
use radixforge.Mapper.State.{Config}
use radixforge.Mapper.Pool.{IsAccounted}
use radixforge.Mapper.Pool.Histories.{evict_idle, step, step-IsAccounted}
use radixforge.Worker.State.{
  InferenceRequest, PrefillCtx, ActiveSeq, BatchEntry, Bridge, Worker, set_mapper,
}
use radixforge.Worker.Step.{Running, running, llama_decode, decode}
use radixforge.Worker.Quiet.{Quiet}
use radixforge.Worker.Invariant.{IsActive, IsPending, load, prompt_load}
use radixforge.Worker.Invariant.Batch.{InContext}

-- What `llama_decode` may be called with: no more entries than the batch was made for, each at a
-- position of the context.
abbrev pub IsBatch : Bridge → List BatchEntry → Type 0
IsBatch b batch = (length batch ≤ b.n_batch) × All (InContext b) batch

-- The ids are accounted for, and `llama_decode` was called with nothing else.
pub record IsWorking (b : Bridge) (k : Config) (w : Worker) : Type 0 where
  pub accounted : IsAccounted k w.mapper
  pub batches : All (IsBatch b) w.batches

pub record IsServing (b : Bridge) (k : Config) (r : Running) : Type 0 where
  pub working : IsWorking b k r.worker
  pub active : All (IsActive b) r.active
  pub pending : All (IsPending b) r.prefilling
  pub fits : length r.active ≤ b.n_batch

-- What is left to do for the requests that are taken in.
abbrev pub total_load : Running → ℕ
total_load r = load r.active + prompt_load r.prefilling

-- The outcome of a step with the queue untouched; `n` was left to do.
pub record Serves (b : Bridge) (k : Config) (waiting : List InferenceRequest) (n : ℕ) (r : Running)
    : Type 0 where
  pub serving : IsServing b k r
  pub queue : r.worker.queue ≡ waiting
  pub loads : 0 < b.n_batch → total_load r ≤ n - 1

pub Quiet-IsWorking :
    {b : Bridge} {k : Config} {w w' : Worker} → Quiet w w' → IsWorking b k w → IsWorking b k w'
Quiet-IsWorking {b} {k} q h = record {
  accounted = q.keeps k h.accounted;
  batches = subst (All (IsBatch b)) (sym q.batches) h.batches;
}

-- What a decode keeps.
pub record Keeps (b : Bridge) (k : Config) (w w' : Worker) : Type 0 where
  pub working : IsWorking b k w → IsWorking b k w'
  pub queue : w'.queue ≡ w.queue

Keeps-trans :
    {b : Bridge} {k : Config} {w w' w'' : Worker}
    → Keeps b k w w'
    → Keeps b k w' w''
    → Keeps b k w w''
Keeps-trans x y = record { working = λ h. y.working (x.working h); queue = y.queue ∙ x.queue }

pub Quiet-Keeps : {b : Bridge} {k : Config} {w w' : Worker} → Quiet w w' → Keeps b k w w'
Quiet-Keeps q = record { working = Quiet-IsWorking q; queue = q.queue }

llama_decode-Keeps :
    (b : Bridge) (k : Config) (batch : List BatchEntry) (w : Worker)
    → IsBatch b batch
    → Keeps b k w (llama_decode b batch w).0
unfolding llama_decode
llama_decode-Keeps b k batch w h = record {
  working = λ v. record {
    accounted = v.accounted;
    batches = All-append (IsBatch b) w.batches (batch ∷ []) v.batches (h, tt);
  };
  queue = refl;
}

evict_idle-Keeps :
    (b : Bridge) (k : Config) (w : Worker) → Keeps b k w (set_mapper (step w.mapper evict_idle) w)
evict_idle-Keeps b k w = record {
  working = λ v. record {
    accounted = step-IsAccounted w.mapper evict_idle v.accounted;
    batches = v.batches;
  };
  queue = refl;
}

pub decode-Keeps :
    (b : Bridge) (k : Config) (batch : List BatchEntry) (w : Worker)
    → IsBatch b batch
    → Keeps b k w (decode b batch w).0
unfolding decode step
decode-Keeps b k batch w0 h =
    let P = λ (r : Worker × ℕ). Keeps b k w0 (r.0) in
    let (w, status) = llama_decode b batch w0 in
    let once = llama_decode-Keeps b k batch w0 h in
    let evicted = Keeps-trans once (evict_idle-Keeps b k w) in
    if_ind P (status == 1) _ _
      (if_ind P _ _ _ (Keeps-trans evicted (llama_decode-Keeps b k batch _ h)) evicted) once
