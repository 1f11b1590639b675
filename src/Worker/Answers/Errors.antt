-- ===== src/Worker/Answers/Errors.antt =====
-- What src/worker.cpp does when a decode fails: whom it tells, what it keeps and what it releases.
use radixforge.Common.{
  append-nil, append_assoc, ◌⊎◌, ℕ, ◌≡◌, ◌≢◌, refl, ap, sym, ◌∙◌, false, ◌==◌, ==_iff, List, [],
  ◌∷◌, ◌++◌, map, arith, Bool-cases, inl, inr,
}
use radixforge.Tree.Evict.{release}
use radixforge.Mapper.State.{KvMapper}
use radixforge.Mapper.Sequence.{release_sequence}
use radixforge.Worker.State.{
  InferenceRequest, PrefillCtx, ActiveSeq, ErrorMessage, Event, error, kv_cache_is_full,
  inference_decode_failed, inference_prefill_failed, Bridge, Worker, give_up, is_cancelled,
}
use radixforge.Worker.Batch.{PromptSubmission}
use radixforge.Worker.Retire.{
  report, give_up_ctx, fail_active, fail_prefill, fail_all_active, fail_all_prefill, pop_back,
}
use radixforge.Worker.Step.{Running, running, fail_newest, fail_all, after_decode}

-- The errors of sequences and of contexts, in order.
abbrev pub active_errors : ErrorMessage → ℕ → List ActiveSeq → List Event
active_errors message status seqs = map (λ (seq : ActiveSeq). error seq.req.id message status) seqs

abbrev pub prefill_errors : ErrorMessage → ℕ → List PrefillCtx → List Event
prefill_errors message status ctxs =
    map (λ (ctx : PrefillCtx). error ctx.req.id message status) ctxs

-- A sequence id and the leaf it is held at.
abbrev lease_of_seq : ActiveSeq → ℕ × ℕ
lease_of_seq seq = (seq.seq_id, seq.leaf_node)

abbrev lease_of_ctx : PrefillCtx → ℕ × ℕ
lease_of_ctx ctx = (ctx.prep.seq_id, ctx.prep.leaf_node)

-- The mapper with the ids released and the leaves no longer referenced, one by one.
abbrev released : List (ℕ × ℕ) → KvMapper → KvMapper
released [] m = m
released ((s, leaf) ∷ leases) m =
    let m' = release_sequence s leaf m in
    released leases (record m' { tree = release leaf m'.tree })

module _ (b : Bridge) (stay : (id n : ℕ) → b.gone id n ≡ false) where
  report-events :
      (req : InferenceRequest) (message : ErrorMessage) (status : ℕ) (w : Worker)
      → (report b req message status w).events ≡ w.events ++ error req.id message status ∷ []
  unfolding report is_cancelled
  report-events req message status w = rw (stay req.id w.polls) refl

  report-mapper :
      (req : InferenceRequest) (message : ErrorMessage) (status : ℕ) (w : Worker)
      → (report b req message status w).mapper ≡ w.mapper
  unfolding report is_cancelled
  report-mapper req message status w = rw (stay req.id w.polls) refl

  fail_active-mapper :
      (message : ErrorMessage) (status : ℕ) (seq : ActiveSeq) (w : Worker)
      → (fail_active b message status seq w).mapper ≡ released (lease_of_seq seq ∷ []) w.mapper
  unfolding fail_active give_up
  fail_active-mapper message status seq w =
      ap (released (lease_of_seq seq ∷ [])) (report-mapper seq.req message status w)

  fail_prefill-mapper :
      (message : ErrorMessage) (status : ℕ) (ctx : PrefillCtx) (w : Worker)
      → (fail_prefill b message status ctx w).mapper ≡ released (lease_of_ctx ctx ∷ []) w.mapper
  unfolding fail_prefill give_up_ctx give_up
  fail_prefill-mapper message status ctx w =
      ap (released (lease_of_ctx ctx ∷ [])) (report-mapper ctx.req message status w)

  fail_all_active-mapper :
      (message : ErrorMessage) (status : ℕ) (seqs : List ActiveSeq) (w : Worker)
      → (fail_all_active b message status seqs w).mapper ≡ released (map lease_of_seq seqs) w.mapper
  unfolding fail_all_active
  fail_all_active-mapper message status [] w = refl
  fail_all_active-mapper message status (seq ∷ seqs) w =
      fail_all_active-mapper message status seqs (fail_active b message status seq w)
      ∙ ap (released (map lease_of_seq seqs)) (fail_active-mapper message status seq w)

  fail_all_prefill-mapper :
      (message : ErrorMessage) (status : ℕ) (ctxs : List PrefillCtx) (w : Worker)
      → (fail_all_prefill b message status ctxs w).mapper
        ≡ released (map lease_of_ctx ctxs) w.mapper
  unfolding fail_all_prefill
  fail_all_prefill-mapper message status [] w = refl
  fail_all_prefill-mapper message status (ctx ∷ ctxs) w =
      fail_all_prefill-mapper message status ctxs (fail_prefill b message status ctx w)
      ∙ ap (released (map lease_of_ctx ctxs)) (fail_prefill-mapper message status ctx w)

  fail_all_active-events :
      (message : ErrorMessage) (status : ℕ) (seqs : List ActiveSeq) (w : Worker)
      → (fail_all_active b message status seqs w).events
        ≡ w.events ++ active_errors message status seqs
  unfolding fail_all_active fail_active give_up
  fail_all_active-events message status [] w = sym (append-nil w.events)
  fail_all_active-events message status (seq ∷ seqs) w =
      fail_all_active-events message status seqs (fail_active b message status seq w)
      ∙ ap (λ events. events ++ active_errors message status seqs)
          (report-events seq.req message status w)
      ∙ append_assoc w.events (error seq.req.id message status ∷ [])
          (active_errors message status seqs)

  fail_all_prefill-events :
      (message : ErrorMessage) (status : ℕ) (ctxs : List PrefillCtx) (w : Worker)
      → (fail_all_prefill b message status ctxs w).events
        ≡ w.events ++ prefill_errors message status ctxs
  unfolding fail_all_prefill fail_prefill give_up_ctx give_up
  fail_all_prefill-events message status [] w = sym (append-nil w.events)
  fail_all_prefill-events message status (ctx ∷ ctxs) w =
      fail_all_prefill-events message status ctxs (fail_prefill b message status ctx w)
      ∙ ap (λ events. events ++ prefill_errors message status ctxs)
          (report-events ctx.req message status w)
      ∙ append_assoc w.events (error ctx.req.id message status ∷ [])
          (prefill_errors message status ctxs)

pop_back-snoc {ℓ} :
    {A : Type ℓ} (x : A) (xs : List A) → x ∷ xs ≡ (pop_back x xs).0 ++ (pop_back x xs).1 ∷ []
unfolding pop_back
pop_back-snoc x [] = refl
pop_back-snoc x (y ∷ ys) = ap (◌∷◌ x) (pop_back-snoc y ys)

-- One peer is told of a full cache, and what its request held is released.
abbrev IsTurnedOut : Worker → ℕ → ℕ × ℕ → Worker → Type 0
IsTurnedOut w id lease w' =
    (w'.events ≡ w.events ++ error id kv_cache_is_full 503 ∷ [])
    × (w'.mapper ≡ released (lease ∷ []) w.mapper)

-- The newest sequence is turned out, or the newest context where there is no sequence; all others
-- are still there.
abbrev IsFull : Worker → List ActiveSeq → List PrefillCtx → Running → Type 0
IsFull w [] [] r = r ≡ running w [] []
IsFull w [] (ctx ∷ ctxs) r =
    (r.active ≡ [])
    × (last : PrefillCtx) × (ctx ∷ ctxs ≡ r.prefilling ++ last ∷ [])
    × IsTurnedOut w last.req.id (lease_of_ctx last) r.worker
IsFull w (seq ∷ seqs) ctxs r =
    (r.prefilling ≡ ctxs)
    × (last : ActiveSeq) × (seq ∷ seqs ≡ r.active ++ last ∷ [])
    × IsTurnedOut w last.req.id (lease_of_seq last) r.worker

-- All are told, nothing is left of them, and what they held is released.
abbrev IsAllFailed : Worker → List ActiveSeq → List PrefillCtx → Running → Type 0
IsAllFailed w seqs ctxs r =
    (r.worker.events
      ≡ (w.events ++ active_errors inference_decode_failed 500 seqs)
        ++ prefill_errors inference_prefill_failed 500 ctxs)
    × (r.active ≡ [])
    × (r.prefilling ≡ [])
    × (r.worker.mapper
        ≡ released (map lease_of_ctx ctxs) (released (map lease_of_seq seqs) w.mapper))

module _ (b : Bridge) (stay : (id n : ℕ) → b.gone id n ≡ false) where
  fail_newest-IsFull :
      (seqs : List ActiveSeq) (ctxs : List PrefillCtx) (w : Worker)
      → IsFull w seqs ctxs (fail_newest b seqs ctxs w)
  unfolding fail_newest fail_active fail_prefill give_up_ctx give_up
  fail_newest-IsFull [] [] w = refl
  fail_newest-IsFull [] (ctx ∷ ctxs) w =
      let last = (pop_back ctx ctxs).1 in
      (
        refl,
        last,
        pop_back-snoc ctx ctxs,
        (
          report-events b stay last.req kv_cache_is_full 503 w,
          fail_prefill-mapper b stay kv_cache_is_full 503 last w,
        ),
      )
  fail_newest-IsFull (seq ∷ seqs) ctxs w =
      let last = (pop_back seq seqs).1 in
      (
        refl,
        last,
        pop_back-snoc seq seqs,
        (
          report-events b stay last.req kv_cache_is_full 503 w,
          fail_active-mapper b stay kv_cache_is_full 503 last w,
        ),
      )

  fail_all-IsAllFailed :
      (seqs : List ActiveSeq) (ctxs : List PrefillCtx) (w : Worker)
      → IsAllFailed w seqs ctxs (fail_all b seqs ctxs w)
  unfolding fail_all
  fail_all-IsAllFailed seqs ctxs w =
      let w' = fail_all_active b inference_decode_failed 500 seqs w in
      (
        fail_all_prefill-events b stay inference_prefill_failed 500 ctxs w'
            ∙ ap (λ events. events ++ prefill_errors inference_prefill_failed 500 ctxs)
                (fail_all_active-events b stay inference_decode_failed 500 seqs w),
        refl,
        refl,
        fail_all_prefill-mapper b stay inference_prefill_failed 500 ctxs w'
            ∙ ap (released (map lease_of_ctx ctxs))
                (fail_all_active-mapper b stay inference_decode_failed 500 seqs w),
      )

-- What a decode that fails with the status leads to, where no peer goes.
abbrev pub IsFailure : Worker → List ActiveSeq → List PrefillCtx → ℕ → Running → Type 0
IsFailure w seqs ctxs status r =
    ((status ≡ 1) × IsFull w seqs ctxs r) ⊎ ((status ≢ 1) × IsAllFailed w seqs ctxs r)

-- Where no peer goes: a full cache is a 503 for the newest sequence, or for the newest context if no
-- sequence generates, which is no longer there and whose id and leaf are released; all other
-- sequences and contexts are still there in their order, and told nothing. Any other failed decode
-- is a 500 for each sequence and then for each context, in order, none of them is left, and the id
-- and leaf of each are released.
pub after_decode-IsFailure :
    (b : Bridge) (seqs : List ActiveSeq) (ctxs : List PrefillCtx) (subs : List PromptSubmission)
    (w : Worker) (status : ℕ)
    → ((id n : ℕ) → b.gone id n ≡ false)
    → status ≢ 0
    → IsFailure w seqs ctxs status (after_decode b seqs ctxs subs (w, status))
unfolding after_decode
after_decode-IsFailure b seqs ctxs subs w status stay failed = elim (Bool-cases (status == 1)) [
  | inl e ↦ rw e (inl ((==_iff status 1).0 e, fail_newest-IsFull b stay seqs ctxs w))
  | inr e ↦ elim (Bool-cases (status == 0)) [
    | inl f ↦ absurd (failed ((==_iff status 0).0 f))
    | inr f ↦
        rw (e, f)
          (inr ((λ one. absurd (ground (arith, one, e))), fail_all-IsAllFailed b stay seqs ctxs w))
  ]
]
