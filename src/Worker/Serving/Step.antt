-- ===== src/Worker/Serving/Step.antt =====
-- `fused_step` of src/worker.cpp.
use radixforge.Common.{
  is_empty-length, not-is_empty-length, ◌+◌, ◌-◌, ◌<◌, ◌≡◌, refl, ◌∙◌, true, ◌&&◌, ◌||◌, List, [],
  ◌∷◌, arith, leb, length, is_empty, All, Bool-cases, inl, inr,
}
use radixforge.Mapper.State.{Config}
use radixforge.Worker.State.{PrefillCtx, ActiveSeq, Bridge, Worker}
use radixforge.Worker.Batch.{make_batch, sum_tokens}
use radixforge.Worker.Retire.{mark_cancelled, retire_cancelled, drop_abandoned}
use radixforge.Worker.Step.{Running, running, decode, decode_step, fused_step}
use radixforge.Worker.Quiet.{
  Quiet-trans, mark_cancelled-Quiet, retire_cancelled-Quiet, drop_abandoned-Quiet,
}
use radixforge.Worker.Invariant.{
  IsPending, load, prompt_load, mark_cancelled-Shrinks, retire_cancelled-Shrinks,
  drop_abandoned-Drops,
}
use radixforge.Worker.Invariant.Batch.{
  submit-Aligned, submit_progress, make_batch-InContext, make_batch_sizes,
}
use radixforge.Worker.Serving.{IsServing, total_load, Serves, Quiet-IsWorking, decode-Keeps}
use radixforge.Worker.Serving.Outcomes.{after_decode-Serves}

-- Something is decoded where something is to be done.
make_batch_progress :
    (b : Bridge) (seqs : List ActiveSeq) (ctxs : List PrefillCtx)
    → 0 < b.n_batch
    → All (IsPending b) ctxs
    → 0 < load seqs + prompt_load ctxs
    → 0 < length seqs + sum_tokens (make_batch b.n_batch seqs ctxs).1
unfolding make_batch
make_batch_progress b (seq ∷ seqs) ctxs room h some_load = omega arith
make_batch_progress b [] [] room h some_load = omega (arith, some_load)
make_batch_progress b [] (ctx ∷ ctxs) room h some_load =
    omega (arith, submit_progress b (b.n_batch - 0) 0 ctx ctxs (omega (arith, room)) (h.0))

idle_load :
    (b : Bridge) (seqs : List ActiveSeq) (ctxs : List PrefillCtx)
    → 0 < b.n_batch
    → is_empty seqs && (is_empty ctxs || leb b.n_batch (length seqs)) ≡ true
    → load seqs + prompt_load ctxs ≡ 0
idle_load b (seq ∷ seqs) ctxs room e = cc
idle_load b [] [] room e = omega arith
idle_load b [] (ctx ∷ ctxs) room e = ground (arith, room, e)

-- Nothing is decoded.
waiting-Serves :
    (b : Bridge) (k : Config) (r : Running)
    → IsServing b k r
    → (0 < b.n_batch → total_load r ≡ 0)
    → Serves b k r.worker.queue (total_load r) r
waiting-Serves b k r v idle = record {
  serving = v;
  queue = refl;
  loads = λ p. omega (arith, idle p);
}

decode_step-Serves :
    (b : Bridge) (k : Config) (seqs : List ActiveSeq) (ctxs : List PrefillCtx) (w : Worker)
    → IsServing b k (running w seqs ctxs)
    → Serves b k w.queue (load seqs + prompt_load ctxs) (decode_step b w seqs ctxs)
unfolding decode_step make_batch
decode_step-Serves b k seqs ctxs w v =
    let (batch, subs) = make_batch b.n_batch seqs ctxs in
    let P = Serves b k w.queue (load seqs + prompt_load ctxs) in
    let sizes = make_batch_sizes b.n_batch seqs ctxs in
    let idle_batch : is_empty (make_batch b.n_batch seqs ctxs).0 ≡ true
        → 0 < b.n_batch
        → load seqs + prompt_load ctxs ≡ 0 =
      λ f room.
        let none = is_empty-length (make_batch b.n_batch seqs ctxs).0 f in
        elim (Bool-cases (leb (load seqs + prompt_load ctxs) 0)) [
          | inl g ↦ ground arith
          | inr g ↦ absurd (
              omega (
                arith,
                none,
                sizes.0,
                make_batch_progress b seqs ctxs room v.pending (ground arith),
              ))
        ] in
    elim (Bool-cases (is_empty seqs && (is_empty ctxs || leb b.n_batch (length seqs)))) [
      | inl e ↦ rw e (waiting-Serves b k (running w seqs ctxs) v (λ p. idle_load b seqs ctxs p e))
      | inr e ↦ elim (Bool-cases (is_empty (make_batch b.n_batch seqs ctxs).0)) [
        | inl f ↦ rw (e, f) (waiting-Serves b k (running w seqs ctxs) v (idle_batch f))
        | inr f ↦
            let some_entries = not-is_empty-length (make_batch b.n_batch seqs ctxs).0 f in
            let kept = decode-Keeps b k batch w (
              omega (arith, sizes.0, sizes.1, v.fits),
              make_batch-InContext b seqs ctxs v.active v.pending,
            ) in
            let after =
              after_decode-Serves b k seqs ctxs subs (decode b batch w).0 (decode b batch w).1
                (record {
                  working = kept.working v.working;
                  active = v.active;
                  pending = v.pending;
                  fits = v.fits;
                })
                (submit-Aligned (b.n_batch - length seqs) (length seqs) ctxs) (sizes.1)
                (omega (arith, some_entries, sizes.0)) in
            rw (e, f)
              (record {
                serving = after.serving;
                queue = after.queue ∙ kept.queue;
                loads = after.loads;
              })
      ]
    ]

-- One `fused_step`.
pub fused_step-Serves :
    (b : Bridge) (k : Config) (r : Running)
    → IsServing b k r
    → Serves b k r.worker.queue (total_load r) (fused_step b r)
unfolding fused_step
fused_step-Serves b k r v =
    let (w1, marked) = mark_cancelled b r.worker r.active in
    let (w2, seqs) = retire_cancelled b w1 marked in
    let (w3, ctxs) = drop_abandoned b w2 r.prefilling in
    let m = mark_cancelled-Shrinks b r.worker r.active in
    let c = retire_cancelled-Shrinks b w1 marked in
    let d = drop_abandoned-Drops b w2 r.prefilling in
    let q =
      Quiet-trans (mark_cancelled-Quiet b r.worker r.active) (
        Quiet-trans (retire_cancelled-Quiet b w1 marked)
          (drop_abandoned-Quiet b w2 r.prefilling)) in
    let after = decode_step-Serves b k seqs ctxs w3 (record {
      working = Quiet-IsWorking q v.working;
      active = c.inv (m.inv v.active);
      pending = d.inv v.pending;
      fits = omega (arith, v.fits, m.size, c.size);
    }) in
    record {
      serving = after.serving;
      queue = after.queue ∙ q.queue;
      loads = λ p. omega (arith, after.loads p, m.loads, c.loads, d.loads);
    }
