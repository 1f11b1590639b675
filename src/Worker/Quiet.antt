-- ===== src/Worker/Quiet.antt =====
-- The parts of src/worker.cpp that decode nothing: they keep the mapper's accounting of ids, since
-- all that they do to it is calls of its operations.
pub mod Prepare
pub mod Finish
use radixforge.Common.{
  ℕ, ◌+◌, ◌≡◌, refl, sym, ap, subst, ◌∙◌, Bool, true, false, List, [], ◌∷◌, Option, none, some,
  arith, if◌then◌else◌, Bool-cases, if_ind, inl, inr,
}
use radixforge.Mapper.State.{Config, KvMapper}
use radixforge.Mapper.Sequence.{
  PrepareResult, prepare_sequence, mark_sequence_ready, set_sequence_cell_count, extend_sequence,
  release_sequence,
}
use radixforge.Mapper.Pool.{IsAccounted}
use radixforge.Mapper.Pool.Histories.{
  MapperCall, prepare, mark_ready, set_cell_count, extend, release_seq, release_node, step,
  step-IsAccounted,
}
use radixforge.Worker.State.{
  InferenceRequest, PrefillCtx, ActiveSeq, ErrorMessage, Event, Bridge, Worker, emit, set_mapper,
  give_up, is_cancelled,
}
use radixforge.Worker.Retire.{
  extend_if, finish_if, retire, mark_cancelled, retire_cancelled, retire_one, retire_completed,
  give_up_ctx, drop_abandoned, report, fail_active, fail_prefill, fail_all_active, fail_all_prefill,
}

-- Nothing is decoded, and ids are neither lost nor made.
pub record Quiet (w w' : Worker) : Type 0 where
  pub keeps : (k : Config) → IsAccounted k w.mapper → IsAccounted k w'.mapper
  pub batches : w'.batches ≡ w.batches
  pub queue : w'.queue ≡ w.queue

pub Quiet-refl : (w : Worker) → Quiet w w
Quiet-refl w = record { keeps = λ k a. a; batches = refl; queue = refl }

pub Quiet-trans : {w w' w'' : Worker} → Quiet w w' → Quiet w' w'' → Quiet w w''
Quiet-trans q r = record {
  keeps = λ k a. r.keeps k (q.keeps k a);
  batches = r.batches ∙ q.batches;
  queue = r.queue ∙ q.queue;
}

pub Quiet-same :
    (w w' : Worker)
    → w'.mapper ≡ w.mapper
    → w'.batches ≡ w.batches
    → w'.queue ≡ w.queue
    → Quiet w w'
Quiet-same w w' e f g = record {
  keeps = λ k a. subst (IsAccounted k) (sym e) a;
  batches = f;
  queue = g;
}

pub Quiet-if : (b : Bool) {w x y : Worker} → Quiet w x → Quiet w y → Quiet w (if b then x else y)
Quiet-if true q r = q
Quiet-if false q r = r

-- One call of the mapper.
pub step-Quiet : (w : Worker) (c : MapperCall) → Quiet w (set_mapper (step w.mapper c) w)
step-Quiet w c = record {
  keeps = λ k a. step-IsAccounted w.mapper c a;
  batches = refl;
  queue = refl;
}

pub emit-Quiet : (e : Event) (w : Worker) → Quiet w (emit e w)
emit-Quiet e w = Quiet-same w (emit e w) refl refl refl

pub give_up-Quiet : (s node leaf : ℕ) (w : Worker) → Quiet w (give_up s node leaf w)
unfolding give_up step
give_up-Quiet s node leaf w =
    let w' : Worker = set_mapper (step w.mapper (release_seq s node)) w in
    Quiet-trans (step-Quiet w (release_seq s node)) (step-Quiet w' (release_node leaf))

pub is_cancelled-Quiet :
    (b : Bridge) (req : InferenceRequest) (w : Worker) → Quiet w (is_cancelled b req w).0
unfolding is_cancelled
is_cancelled-Quiet b req w =
    Quiet-same w (is_cancelled b req w).0 (ground arith) (ground arith) (ground arith)

pub give_up_ctx-Quiet : (ctx : PrefillCtx) (w : Worker) → Quiet w (give_up_ctx ctx w)
unfolding give_up_ctx
give_up_ctx-Quiet ctx w = give_up-Quiet ctx.prep.seq_id ctx.prep.leaf_node ctx.prep.leaf_node w

extend_if-Quiet :
    (b : Bridge) (notify : Bool) (seq : ActiveSeq) (w : Worker)
    → Quiet w (extend_if b notify seq w).0
unfolding extend_if step
extend_if-Quiet b false seq w = Quiet-refl w
extend_if-Quiet b true seq w0 =
    let (w, req, gone) = is_cancelled b seq.req w0 in
    Quiet-trans (is_cancelled-Quiet b seq.req w0) (
      if_ind (λ (r : Worker × InferenceRequest × ℕ). Quiet w (r.0)) gone _ _ (Quiet-refl w)
        (step-Quiet w (extend seq.seq_id seq.leaf_node seq.cached_tokens)))

finish_if-Quiet :
    (b : Bridge) (notify : Bool) (req : InferenceRequest) (w : Worker)
    → Quiet w (finish_if b notify req w)
unfolding finish_if
finish_if-Quiet b false req w = Quiet-refl w
finish_if-Quiet b true req w0 =
    let (w, req', gone) = is_cancelled b req w0 in
    Quiet-trans (is_cancelled-Quiet b req w0) (Quiet-if gone (Quiet-refl w) (emit-Quiet _ w))

pub retire-Quiet :
    (b : Bridge) (notify : Bool) (seq : ActiveSeq) (w : Worker) → Quiet w (retire b notify seq w)
unfolding retire
retire-Quiet b notify seq w0 =
    let (w, req, node) = extend_if b notify seq w0 in
    Quiet-trans (extend_if-Quiet b notify seq w0)
      (Quiet-trans (finish_if-Quiet b notify req w) (give_up-Quiet seq.seq_id node seq.leaf_node _))

pub mark_cancelled-Quiet :
    (b : Bridge) (w : Worker) (seqs : List ActiveSeq) → Quiet w (mark_cancelled b w seqs).0
unfolding mark_cancelled
mark_cancelled-Quiet b w [] = Quiet-refl w
mark_cancelled-Quiet b w (seq ∷ seqs) =
    Quiet-trans (is_cancelled-Quiet b seq.req w)
      (mark_cancelled-Quiet b (is_cancelled b seq.req w).0 seqs)

pub retire_cancelled-Quiet :
    (b : Bridge) (w : Worker) (seqs : List ActiveSeq) → Quiet w (retire_cancelled b w seqs).0
unfolding retire_cancelled
retire_cancelled-Quiet b w [] = Quiet-refl w
retire_cancelled-Quiet b w (seq ∷ seqs) =
    Quiet-trans (Quiet-if seq.done (retire-Quiet b false seq w) (Quiet-refl w))
      (retire_cancelled-Quiet b (if seq.done then retire b false seq w else w) seqs)

retire_one-Quiet : (b : Bridge) (seq : ActiveSeq) (w : Worker) → Quiet w (retire_one b seq w)
unfolding retire_one
retire_one-Quiet b seq w =
    Quiet-trans (is_cancelled-Quiet b seq.req w) (retire-Quiet b seq.notify_on_retire _ _)

pub retire_completed-Quiet :
    (b : Bridge) (w : Worker) (seqs : List ActiveSeq) → Quiet w (retire_completed b w seqs).0
unfolding retire_completed
retire_completed-Quiet b w [] = Quiet-refl w
retire_completed-Quiet b w (seq ∷ seqs) =
    Quiet-trans (Quiet-if seq.done (retire_one-Quiet b seq w) (Quiet-refl w))
      (retire_completed-Quiet b (if seq.done then retire_one b seq w else w) seqs)

pub drop_abandoned-Quiet :
    (b : Bridge) (w : Worker) (ctxs : List PrefillCtx) → Quiet w (drop_abandoned b w ctxs).0
unfolding drop_abandoned
drop_abandoned-Quiet b w [] = Quiet-refl w
drop_abandoned-Quiet b w0 (ctx ∷ ctxs) =
    let (w, req, gone) = is_cancelled b ctx.req w0 in
    Quiet-trans (is_cancelled-Quiet b ctx.req w0) (
      Quiet-trans (Quiet-if gone (give_up_ctx-Quiet ctx w) (Quiet-refl w))
        (drop_abandoned-Quiet b (if gone then give_up_ctx ctx w else w) ctxs))

report-Quiet :
    (b : Bridge) (req : InferenceRequest) (message : ErrorMessage) (status : ℕ) (w : Worker)
    → Quiet w (report b req message status w)
unfolding report
report-Quiet b req message status w0 =
    let (w, req', gone) = is_cancelled b req w0 in
    Quiet-trans (is_cancelled-Quiet b req w0) (Quiet-if gone (Quiet-refl w) (emit-Quiet _ w))

pub fail_active-Quiet :
    (b : Bridge) (message : ErrorMessage) (status : ℕ) (seq : ActiveSeq) (w : Worker)
    → Quiet w (fail_active b message status seq w)
unfolding fail_active
fail_active-Quiet b message status seq w =
    Quiet-trans (report-Quiet b seq.req message status w)
      (give_up-Quiet seq.seq_id seq.leaf_node seq.leaf_node _)

pub fail_prefill-Quiet :
    (b : Bridge) (message : ErrorMessage) (status : ℕ) (ctx : PrefillCtx) (w : Worker)
    → Quiet w (fail_prefill b message status ctx w)
unfolding fail_prefill
fail_prefill-Quiet b message status ctx w =
    Quiet-trans (report-Quiet b ctx.req message status w) (give_up_ctx-Quiet ctx _)

pub fail_all_active-Quiet :
    (b : Bridge) (message : ErrorMessage) (status : ℕ) (seqs : List ActiveSeq) (w : Worker)
    → Quiet w (fail_all_active b message status seqs w)
unfolding fail_all_active
fail_all_active-Quiet b message status [] w = Quiet-refl w
fail_all_active-Quiet b message status (seq ∷ seqs) w =
    Quiet-trans (fail_active-Quiet b message status seq w)
      (fail_all_active-Quiet b message status seqs _)

pub fail_all_prefill-Quiet :
    (b : Bridge) (message : ErrorMessage) (status : ℕ) (ctxs : List PrefillCtx) (w : Worker)
    → Quiet w (fail_all_prefill b message status ctxs w)
unfolding fail_all_prefill
fail_all_prefill-Quiet b message status [] w = Quiet-refl w
fail_all_prefill-Quiet b message status (ctx ∷ ctxs) w =
    Quiet-trans (fail_prefill-Quiet b message status ctx w)
      (fail_all_prefill-Quiet b message status ctxs _)
