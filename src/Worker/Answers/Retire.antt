-- ===== src/Worker/Answers/Retire.antt =====
-- How cancellation and retirement in src/worker.cpp end the answers.
use radixforge.Common.{
  ℕ, ◌+◌, ◌≡◌, refl, ap, Bool, true, false, List, [], ◌∷◌, arith, if◌then◌else◌, if_ind, indicator,
  All, Bool-cases, inl, inr,
}
use radixforge.Worker.State.{
  InferenceRequest, PrefillCtx, ActiveSeq, token, Bridge, Worker, give_up, is_cancelled,
}
use radixforge.Worker.Retire.{
  extend_if, finish_if, retire, mark_cancelled, retire_cancelled, retire_one, retire_completed,
  give_up_ctx, drop_abandoned,
}
use radixforge.Worker.Answers.{
  IsPatient, tally, asks, asks_ctx, asks_seq, answers, emit-answers, give_up_ctx-answers,
  is_cancelled-Polls,
}

-- A sequence that generates: the last token of its answer is not sent, nor asked for.
abbrev pub IsLive : ActiveSeq → Type 0
IsLive seq = (seq.done ≡ false) × (seq.notify_on_retire ≡ false)

-- 1 for a sequence of the request `id` that is still to send the end of its answer.
abbrev pub owes : ℕ → ActiveSeq → ℕ
owes id seq =
    if seq.done then (if seq.notify_on_retire then asks_seq id seq else 0) else asks_seq id seq

-- A sequence that is not done is live.
abbrev pub IsLiveIf : ActiveSeq → Type 0
IsLiveIf seq = seq.done ≡ false → seq.notify_on_retire ≡ false

module _ (b : Bridge) (id : ℕ) (patient : IsPatient b id) where
  extend_if-answers :
      (notify : Bool) (seq : ActiveSeq) (w : Worker)
      → let (w', req, node) = extend_if b notify seq w in
        (answers id w' ≡ answers id w) × (req.id ≡ seq.req.id)
  unfolding extend_if
  extend_if-answers false seq w = (refl, refl)
  extend_if-answers true seq w0 =
      let polled = is_cancelled-Polls b id patient seq.req w0 in
      elim (Bool-cases (is_cancelled b seq.req w0).2) [
        | inl e ↦ rw e (polled.before, polled.same)
        | inr e ↦ rw e (polled.before, polled.same)
      ]

  finish_if-answers :
      (notify : Bool) (req : InferenceRequest) (w : Worker)
      → answers id (finish_if b notify req w) ≡ answers id w + (if notify then asks id req else 0)
  unfolding finish_if
  finish_if-answers false req w = omega arith
  finish_if-answers true req0 w0 =
      let (w, req, gone) = is_cancelled b req0 w0 in
      let polled = is_cancelled-Polls b id patient req0 w0 in
      elim (Bool-cases (is_cancelled b req0 w0).2) [
        | inl e ↦ rw e (omega (arith, polled.before, polled.stays e))
        | inr e ↦
            rw e
              (omega (arith, polled.before, emit-answers id (token req.id [] true) w, polled.own))
      ]

  pub retire-answers :
      (notify : Bool) (seq : ActiveSeq) (w : Worker)
      → answers id (retire b notify seq w) ≡ answers id w + (if notify then asks_seq id seq else 0)
  unfolding retire give_up
  retire-answers notify seq w0 =
      let (w, req, node) = extend_if b notify seq w0 in
      let extended = extend_if-answers notify seq w0 in
      let same = ap (λ i. if notify then indicator id i else 0) (extended.1) in
      omega (arith, finish_if-answers notify req w, extended.0, same)

  -- Only a sequence of another request is marked.
  pub mark_cancelled-answers :
      (seqs : List ActiveSeq) (w : Worker)
      → All IsLive seqs
      → let (w', marked) = mark_cancelled b w seqs in
        (answers id w' ≡ answers id w)
        × (tally (owes id) marked ≡ tally (asks_seq id) seqs)
        × All (λ seq. seq.notify_on_retire ≡ false) marked
  unfolding mark_cancelled
  mark_cancelled-answers [] w h = (refl, refl, tt)
  mark_cancelled-answers (seq ∷ seqs) w0 h =
      let (w, req, gone) = is_cancelled b seq.req w0 in
      let polled = is_cancelled-Polls b id patient seq.req w0 in
      let ih = mark_cancelled-answers seqs (is_cancelled b seq.req w0).0 (h.1) in
      elim (Bool-cases (is_cancelled b seq.req w0).2) [
        | inl e ↦
            rw (e, h.0.1)
              (
                omega (arith, ih.0, polled.before),
                omega (arith, ih.1, polled.stays e),
                (refl, ih.2),
              )
        | inr e ↦
            rw (e, h.0.0, h.0.1)
              (omega (arith, ih.0, polled.before), omega (arith, ih.1, polled.own), (refl, ih.2))
      ]

  -- What `remove_if` does with a sequence.
  kept-asks :
      (seq : ActiveSeq) (rest : List ActiveSeq)
      → IsLiveIf seq
      → All IsLive rest
      → let left = if seq.done then rest else seq ∷ rest in
        (tally (asks_seq id) left + (if seq.done then asks_seq id seq else 0)
          ≡ asks_seq id seq + tally (asks_seq id) rest)
        × All IsLive left
  kept-asks seq rest live h = elim (Bool-cases seq.done) [
    | inl e ↦ rw e (omega arith, h)
    | inr e ↦ rw e (omega arith, ((refl, live e), h))
  ]

  retire_if-answers :
      (seq : ActiveSeq) (w : Worker)
      → seq.notify_on_retire ≡ false
      → answers id (if seq.done then retire b false seq w else w) ≡ answers id w
  retire_if-answers seq w e =
      if_ind (λ x. answers id x ≡ answers id w) seq.done _ _
        (omega (arith, retire-answers false seq w)) refl

  pub retire_cancelled-answers :
      (seqs : List ActiveSeq) (w : Worker)
      → All (λ seq. seq.notify_on_retire ≡ false) seqs
      → let (w', left) = retire_cancelled b w seqs in
        (answers id w' ≡ answers id w)
        × (tally (asks_seq id) left ≡ tally (owes id) seqs)
        × All IsLive left
  unfolding retire_cancelled
  retire_cancelled-answers [] w h = (refl, refl, tt)
  retire_cancelled-answers (seq ∷ seqs) w h =
      let w' = if seq.done then retire b false seq w else w in
      let ih = retire_cancelled-answers seqs (if seq.done then retire b false seq w else w) (h.1) in
      let kept = kept-asks seq (retire_cancelled b w' seqs).1 (λ e. h.0) (ih.2) in
      (
        omega (arith, ih.0, retire_if-answers seq w (h.0)),
        elim (Bool-cases seq.done) [
          | inl e ↦ ground (arith, kept.0, ih.1, e, h.0)
          | inr e ↦ ground (arith, kept.0, ih.1, e, h.0)
        ],
        kept.1,
      )

  retire_one-answers :
      (seq : ActiveSeq) (w : Worker)
      → answers id (retire_one b seq w)
        ≡ answers id w + (if seq.notify_on_retire then asks_seq id seq else 0)
  unfolding retire_one
  retire_one-answers seq w0 =
      let (w, req, gone) = is_cancelled b seq.req w0 in
      let polled = is_cancelled-Polls b id patient seq.req w0 in
      let same = ap (λ i. if seq.notify_on_retire then indicator id i else 0) polled.same in
      omega (
        arith,
        retire-answers seq.notify_on_retire (record seq { req = req }) w,
        polled.before,
        same,
      )

  pub retire_completed-answers :
      (seqs : List ActiveSeq) (w : Worker)
      → All IsLiveIf seqs
      → let (w', left) = retire_completed b w seqs in
        (answers id w' + tally (asks_seq id) left ≡ answers id w + tally (owes id) seqs)
        × All IsLive left
  unfolding retire_completed
  retire_completed-answers [] w h = (refl, tt)
  retire_completed-answers (seq ∷ seqs) w h =
      let w' = if seq.done then retire_one b seq w else w in
      let ih = retire_completed-answers seqs (if seq.done then retire_one b seq w else w) (h.1) in
      let kept = kept-asks seq (retire_completed b w' seqs).1 (h.0) (ih.1) in
      (
        elim (Bool-cases seq.done) [
          | inl e ↦
              let one = ap (λ d. answers id (if d then retire_one b seq w else w)) e in
              ground (arith, kept.0, ih.0, e, one, retire_one-answers seq w)
          | inr e ↦
              let one = ap (λ d. answers id (if d then retire_one b seq w else w)) e in
              ground (arith, kept.0, ih.0, e, one)
        ],
        kept.1,
      )

  pub drop_abandoned-answers :
      (ctxs : List PrefillCtx) (w : Worker)
      → let (w', left) = drop_abandoned b w ctxs in
        (answers id w' ≡ answers id w) × (tally (asks_ctx id) left ≡ tally (asks_ctx id) ctxs)
  unfolding drop_abandoned give_up_ctx give_up
  drop_abandoned-answers [] w = (refl, refl)
  drop_abandoned-answers (ctx ∷ ctxs) w0 =
      let (w, req, gone) = is_cancelled b ctx.req w0 in
      let polled = is_cancelled-Polls b id patient ctx.req w0 in
      let ih = drop_abandoned-answers ctxs (if gone then give_up_ctx ctx w else w) in
      let one =
        if_ind (λ x. answers id x ≡ answers id w) gone (give_up_ctx ctx w) w
          (give_up_ctx-answers id ctx w) refl in
      (
        omega (arith, ih.0, one, polled.before),
        kept gone req (drop_abandoned b (if gone then give_up_ctx ctx w else w) ctxs).1 polled.stays
            polled.own (ih.1),
      )
    where
      kept :
          (d : Bool) (req : InferenceRequest) (rest : List PrefillCtx)
          → (d ≡ true → asks_ctx id ctx ≡ 0)
          → asks id req ≡ asks_ctx id ctx
          → tally (asks_ctx id) rest ≡ tally (asks_ctx id) ctxs
          → tally (asks_ctx id) (if d then rest else record ctx { req = req } ∷ rest)
            ≡ asks_ctx id ctx + tally (asks_ctx id) ctxs
      kept true req rest stays same ih = omega (arith, stays refl, ih)
      kept false req rest stays same ih = omega (arith, same, ih)
