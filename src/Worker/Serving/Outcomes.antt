-- ===== src/Worker/Serving/Outcomes.antt =====
-- What a decode leads to in src/worker.cpp, by its status.
use radixforge.Common.{
  ℕ, ◌+◌, ◌-◌, ◌≤◌, ◌<◌, ◌≡◌, refl, List, [], ◌∷◌, ◌++◌, ◌==◌, arith, if_ind, length, length-append,
  All, All-append,
}
use radixforge.Mapper.State.{Config}
use radixforge.Worker.State.{
  PrefillCtx, ActiveSeq, kv_cache_is_full, inference_decode_failed, inference_prefill_failed,
  Bridge, Worker,
}
use radixforge.Worker.Batch.{PromptSubmission, sum_tokens}
use radixforge.Worker.Retire.{retire_completed, pop_back}
use radixforge.Worker.Finish.{commit, advance_all, activate_all}
use radixforge.Worker.Step.{
  Running, running, fail_newest, fail_all, count_prefill, count_step, succeed, after_decode,
}
use radixforge.Worker.Quiet.{
  Quiet, Quiet-same, Quiet-trans, retire_completed-Quiet, fail_active-Quiet, fail_prefill-Quiet,
  fail_all_active-Quiet, fail_all_prefill-Quiet,
}
use radixforge.Worker.Quiet.Finish.{commit-Quiet, advance_all-Quiet, activate_all-Quiet}
use radixforge.Worker.Invariant.{IsActive, IsPending, load, prompt_load}
use radixforge.Worker.Invariant.Batch.{Aligned}
use radixforge.Worker.Invariant.Advance.{advance_all-AllMoved, retire_completed-Advances}
use radixforge.Worker.Invariant.Activate.{commit-Commits, activate_all-Activates}
use radixforge.Worker.Serving.{IsWorking, IsServing, Serves, Quiet-IsWorking}

pop_back-IsActive :
    (b : Bridge) (seq : ActiveSeq) (seqs : List ActiveSeq)
    → All (IsActive b) (seq ∷ seqs)
    → let rest = (pop_back seq seqs).0 in
      All (IsActive b) rest × (length rest ≤ length seqs) × (load rest < load (seq ∷ seqs))
unfolding pop_back
pop_back-IsActive b seq [] h = (tt, omega arith, omega arith)
pop_back-IsActive b seq (next ∷ seqs) h =
    let ih = pop_back-IsActive b next seqs (h.1) in
    ((h.0, ih.0), omega (arith, ih.1), omega (arith, ih.2))

pop_back-IsPending :
    (b : Bridge) (ctx : PrefillCtx) (ctxs : List PrefillCtx)
    → All (IsPending b) (ctx ∷ ctxs)
    → let rest = (pop_back ctx ctxs).0 in
      All (IsPending b) rest × (prompt_load rest < prompt_load (ctx ∷ ctxs))
unfolding pop_back
pop_back-IsPending b ctx [] h = (tt, omega arith)
pop_back-IsPending b ctx (next ∷ ctxs) h =
    let ih = pop_back-IsPending b next ctxs (h.1) in ((h.0, ih.0), omega (arith, ih.1))

load-append : (xs ys : List ActiveSeq) → load (xs ++ ys) ≡ load xs + load ys
load-append [] ys = omega arith
load-append (x ∷ xs) ys = omega (arith, load-append xs ys)

-- Nothing runs.
idle-Serves :
    {b : Bridge} {k : Config} (n : ℕ) (w : Worker)
    → IsWorking b k w
    → Serves b k w.queue n (running w [] [])
idle-Serves n w v = record {
  serving = record { working = v; active = tt; pending = tt; fits = omega arith };
  queue = refl;
  loads = λ p. omega arith;
}

-- Behind steps that decode nothing.
Quiet-Serves :
    {b : Bridge} {k : Config} {n : ℕ} {w : Worker} {r : Running}
    → Quiet w r.worker
    → Serves b k r.worker.queue n r
    → Serves b k w.queue n r
Quiet-Serves q s = record { serving = s.serving; queue = q.queue; loads = s.loads }

fail_newest-Serves :
    (b : Bridge) (k : Config) (seqs : List ActiveSeq) (ctxs : List PrefillCtx) (w : Worker)
    → IsServing b k (running w seqs ctxs)
    → Serves b k w.queue (load seqs + prompt_load ctxs) (fail_newest b seqs ctxs w)
unfolding fail_newest
fail_newest-Serves b k (seq ∷ seqs) ctxs w v =
    let popped = pop_back-IsActive b seq seqs v.active in
    let q = fail_active-Quiet b kv_cache_is_full 503 (pop_back seq seqs).1 w in
    record {
      serving = record {
        working = Quiet-IsWorking q v.working;
        active = popped.0;
        pending = v.pending;
        fits = omega (arith, popped.1, v.fits);
      };
      queue = q.queue;
      loads = λ p. omega (arith, popped.2);
    }
fail_newest-Serves b k [] (ctx ∷ ctxs) w v =
    let popped = pop_back-IsPending b ctx ctxs v.pending in
    let q = fail_prefill-Quiet b kv_cache_is_full 503 (pop_back ctx ctxs).1 w in
    record {
      serving = record {
        working = Quiet-IsWorking q v.working;
        active = tt;
        pending = popped.0;
        fits = omega arith;
      };
      queue = q.queue;
      loads = λ p. omega (arith, popped.1);
    }
fail_newest-Serves b k [] [] w v = idle-Serves 0 w v.working

fail_all-Serves :
    (b : Bridge) (k : Config) (n : ℕ) (seqs : List ActiveSeq) (ctxs : List PrefillCtx) (w : Worker)
    → IsWorking b k w
    → Serves b k w.queue n (fail_all b seqs ctxs w)
unfolding fail_all
fail_all-Serves b k n seqs ctxs w v =
    let q =
      Quiet-trans (fail_all_active-Quiet b inference_decode_failed 500 seqs w)
        (fail_all_prefill-Quiet b inference_prefill_failed 500 ctxs _) in
    Quiet-Serves q (idle-Serves n _ (Quiet-IsWorking q v))

-- Behind a decode of something.
succeed-Serves :
    (b : Bridge) (k : Config) (seqs : List ActiveSeq) (ctxs : List PrefillCtx)
    (subs : List PromptSubmission) (w : Worker)
    → IsServing b k (running w seqs ctxs)
    → Aligned ctxs subs
    → sum_tokens subs ≤ b.n_batch - length seqs
    → 0 < length seqs + sum_tokens subs
    → Serves b k w.queue (load seqs + prompt_load ctxs) (succeed b seqs ctxs subs w)
unfolding succeed
succeed-Serves b k seqs ctxs subs w0 v aligned room some_tokens =
    let counted = count_prefill (sum_tokens subs) (count_step w0) in
    let (w1, pending) = commit counted ctxs subs in
    let (w2, advanced) = advance_all b w1 seqs in
    let (w3, left) = retire_completed b w2 advanced in
    let committed = commit-Commits b counted ctxs subs v.pending aligned in
    let advances =
      retire_completed-Advances b w2 seqs advanced (advance_all-AllMoved b w1 seqs v.active) in
    let activates = activate_all-Activates b w3 pending committed.inv in
    let newly_active = (activate_all b w3 pending).2 in
    let q = Quiet-trans (Quiet-same w0 counted (ground arith) (ground arith) (ground arith)) (
      Quiet-trans (commit-Quiet counted ctxs subs) (
        Quiet-trans (advance_all-Quiet b w1 seqs) (
          Quiet-trans (retire_completed-Quiet b w2 advanced) (activate_all-Quiet b w3 pending)))) in
    record {
      serving = record {
        working = Quiet-IsWorking q v.working;
        active = All-append (IsActive b) left newly_active advances.inv activates.active;
        pending = activates.pending;
        fits = omega (
          arith,
          v.fits,
          room,
          advances.size,
          activates.size,
          committed.complete,
          length-append left newly_active,
        );
      };
      queue = q.queue;
      loads = λ p. omega (
        arith,
        some_tokens,
        advances.loads,
        activates.loads,
        committed.loads,
        load-append left newly_active,
      );
    }

pub after_decode-Serves :
    (b : Bridge) (k : Config) (seqs : List ActiveSeq) (ctxs : List PrefillCtx)
    (subs : List PromptSubmission) (w : Worker) (status : ℕ)
    → IsServing b k (running w seqs ctxs)
    → Aligned ctxs subs
    → sum_tokens subs ≤ b.n_batch - length seqs
    → 0 < length seqs + sum_tokens subs
    → Serves b k w.queue (load seqs + prompt_load ctxs) (after_decode b seqs ctxs subs (w, status))
unfolding after_decode
after_decode-Serves b k seqs ctxs subs w status v aligned room some_tokens =
    if_ind (Serves b k w.queue (load seqs + prompt_load ctxs)) (status == 1) _ _
      (fail_newest-Serves b k seqs ctxs w v)
      (if_ind (Serves b k w.queue (load seqs + prompt_load ctxs)) (status == 0) _ _
        (succeed-Serves b k seqs ctxs subs w v aligned room some_tokens)
        (fail_all-Serves b k _ seqs ctxs w v.working))
