-- ===== src/Worker/Answers/Activate.antt =====
-- A context of src/worker.cpp that leaves has its answer ended.
use radixforge.Common.{
  ℕ, ◌+◌, ◌≡◌, refl, true, false, List, [], ◌∷◌, none, some, arith, leb, All, Bool-cases, inl, inr,
}
use radixforge.Worker.State.{PrefillCtx, ActiveSeq, token, Bridge, Worker, give_up, is_cancelled}
use radixforge.Worker.Retire.{give_up_ctx}
use radixforge.Worker.Finish.{
  Pending, sample, Activation, stays, leaves, activates, activate_with, activate, activate_if,
  still, newly, activate_all,
}
use radixforge.Worker.Answers.{
  IsPatient, tally, asks_ctx, asks_seq, answers, emit-answers, give_up_ctx-answers,
  is_cancelled-Polls,
}
use radixforge.Worker.Answers.Retire.{IsLive}
use radixforge.Worker.Answers.Finish.{asks_pending}

abbrev asks_on : ℕ → Activation → ℕ
asks_on id (stays ctx) = asks_ctx id ctx
asks_on id leaves = 0
asks_on id (activates seq) = asks_seq id seq

abbrev IsLiveNew : Activation → Type 0
IsLiveNew (stays ctx) = Unit
IsLiveNew leaves = Unit
IsLiveNew (activates seq) = IsLive seq

Activated : ℕ → Worker → PrefillCtx → Worker × Activation → Type 0
Activated id w ctx r =
    (answers id (r.0) + asks_on id (r.1) ≡ answers id w + asks_ctx id ctx) × IsLiveNew (r.1)

activate_with-Activated :
    (b : Bridge) (id first_tok : ℕ) (ctx : PrefillCtx) (w : Worker)
    → Activated id w ctx (activate_with b first_tok ctx w)
unfolding Activated activate_with give_up_ctx give_up
activate_with-Activated b id first_tok ctx w =
    let ended = emit-answers id (token ctx.req.id [] true) w in
    elim (Bool-cases (b.is_eog first_tok)) [
      | inl e ↦ rw e (omega (arith, ended), tt)
      | inr e ↦ elim (Bool-cases (leb ctx.req.max_tokens 1)) [
        | inl f ↦
            rw (e, f)
              (
                omega
                    (arith, emit-answers id (token ctx.req.id (b.token_to_piece first_tok) true) w),
                tt,
              )
        | inr f ↦
            rw (e, f)
              (
                omega (
                  arith,
                  emit-answers id (token ctx.req.id (b.token_to_piece first_tok) false) w,
                ),
                (refl, refl),
              )
      ]
    ]

module _ (b : Bridge) (id : ℕ) (patient : IsPatient b id) where
  activate_if-Activated : (p : Pending) (w : Worker) → Activated id w (p.0) (activate_if b p w)
  unfolding Activated activate_if activate sample
  activate_if-Activated (ctx, none) w = (refl, tt)
  activate_if-Activated (ctx, some i) w0 =
      let (w, req, gone) = is_cancelled b ctx.req w0 in
      let (w', first_tok) = sample b w in
      let polled = is_cancelled-Polls b id patient ctx.req w0 in
      elim (Bool-cases (is_cancelled b ctx.req w0).2) [
        | inl e ↦
            rw e (omega (arith, polled.before, polled.stays e, give_up_ctx-answers id ctx w), tt)
        | inr e ↦
            let on = activate_with-Activated b id first_tok (record ctx { req = req }) w' in
            rw e (omega (arith, polled.before, polled.own, on.0), on.1)
      ]

  pub activate_all-answers :
      (ps : List Pending) (w : Worker)
      → let (w', ctxs, seqs) = activate_all b w ps in
        (answers id w' + tally (asks_ctx id) ctxs + tally (asks_seq id) seqs
          ≡ answers id w + tally (asks_pending id) ps)
        × All IsLive seqs
  unfolding Activated activate_all
  activate_all-answers [] w = (omega arith, tt)
  activate_all-answers (p ∷ ps) w =
      let one = activate_if-Activated p w in
      let ih = activate_all-answers ps (activate_if b p w).0 in
      let (w'', ctxs, seqs) = activate_all b (activate_if b p w).0 ps in
      let more = newly-lem (activate_if b p w).1 ctxs seqs (one.1) (ih.1) in
      (omega (arith, one.0, ih.0, more.0), more.1)
    where
      newly-lem :
          (a : Activation) (ctxs : List PrefillCtx) (seqs : List ActiveSeq)
          → IsLiveNew a
          → All IsLive seqs
          → (tally (asks_ctx id) (still a ctxs) + tally (asks_seq id) (newly a seqs)
              ≡ asks_on id a + tally (asks_ctx id) ctxs + tally (asks_seq id) seqs)
            × All IsLive (newly a seqs)
      newly-lem (stays ctx) ctxs seqs h k = (omega arith, k)
      newly-lem leaves ctxs seqs h k = (omega arith, k)
      newly-lem (activates seq) ctxs seqs h k = (omega arith, (h, k))
