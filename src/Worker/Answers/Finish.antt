-- ===== src/Worker/Answers/Finish.antt =====
-- What src/worker.cpp does behind a decode ends an answer once.
use radixforge.Common.{
  ℕ, ◌+◌, ◌-◌, ◌≡◌, refl, ap, Bool, false, List, [], ◌∷◌, ◌++◌, arith, ◌==◌, if◌then◌else◌, if_ind,
  length, indicator, All, Bool-cases, inl, inr,
}
use radixforge.Mapper.Sequence.{set_sequence_cell_count}
use radixforge.Worker.State.{
  InferenceRequest, PrefillCtx, ActiveSeq, token, Bridge, Worker, set_mapper, is_cancelled,
}
use radixforge.Worker.Batch.{PromptSubmission}
use radixforge.Worker.Finish.{
  Pending, commit_one, commit, sample, send, settle, predicted, advance_with, advance, advance_all,
}
use radixforge.Worker.Invariant.Batch.{Aligned}
use radixforge.Worker.Answers.{
  IsPatient, tally, asks, asks_ctx, asks_seq, answers, emit-answers, is_cancelled-Polls,
}
use radixforge.Worker.Answers.Retire.{IsLive, IsLiveIf, owes}

abbrev pub asks_pending : ℕ → Pending → ℕ
asks_pending id p = asks_ctx id (p.0)

module _ (id : ℕ) where
  commit_one-answers :
      (ctx : PrefillCtx) (sub : PromptSubmission) (w : Worker)
      → let (w', p) = commit_one ctx sub w in
        (answers id w' ≡ answers id w) × (asks_pending id p ≡ asks_ctx id ctx)
  unfolding commit_one
  commit_one-answers ctx sub w =
      let P = λ (r : Worker × Pending).
        (answers id (r.0) ≡ answers id w) × (asks_pending id (r.1) ≡ asks_ctx id ctx) in
      if_ind P (sub.tokens == 0) _ _ (refl, refl)
        (if_ind P (ctx.delta_start + sub.tokens == length ctx.prep.delta) _ _ (refl, refl)
          (refl, refl))

  pub commit-answers :
      (ctxs : List PrefillCtx) (subs : List PromptSubmission) (w : Worker)
      → Aligned ctxs subs
      → let (w', ps) = commit w ctxs subs in
        (answers id w' ≡ answers id w) × (tally (asks_pending id) ps ≡ tally (asks_ctx id) ctxs)
  unfolding commit
  commit-answers [] [] w h = (refl, refl)
  commit-answers [] (sub ∷ subs) w h = absurd h
  commit-answers (ctx ∷ ctxs) [] w h = absurd h
  commit-answers (ctx ∷ ctxs) (sub ∷ subs) w h =
      let one = commit_one-answers ctx sub w in
      let ih = commit-answers ctxs subs (commit_one ctx sub w).0 (h.1) in
      (omega (arith, one.0, ih.0), omega (arith, one.1, ih.1))

module _ (b : Bridge) (id : ℕ) (patient : IsPatient b id) where
  send-answers :
      (req : InferenceRequest) (piece : List ℕ) (last : Bool) (w : Worker)
      → let (w', req') = send b req piece last w in
        (answers id w' ≡ answers id w + (if last then asks id req else 0))
        × (asks id req' ≡ asks id req)
  unfolding send
  send-answers req0 piece last w0 =
      let (w, req, gone) = is_cancelled b req0 w0 in
      let polled = is_cancelled-Polls b id patient req0 w0 in
      let last_same = ap (λ i. if last then indicator id i else 0) polled.same in
      elim (Bool-cases (is_cancelled b req0 w0).2) [
        | inl e ↦
            let none_asked = polled.stays e in
            rw e (ground (arith, polled.before, none_asked), polled.own)
        | inr e ↦ rw e (
          omega (arith, polled.before, emit-answers id (token req.id piece last) w, last_same),
          polled.own,
        )
      ]

  -- What a sequence that goes on with `remaining` tokens has sent, and what it is left with.
  settle-answers :
      (new_tok : ℕ) (seq : ActiveSeq) (w : Worker)
      → IsLive seq
      → let (w', seq') = settle b new_tok seq w in
        (answers id w' ≡ answers id w)
        × (owes id seq' + (if seq.remaining == 0 then asks_seq id seq else 0) ≡ asks_seq id seq)
        × (seq'.notify_on_retire ≡ false)
  unfolding settle
  settle-answers new_tok seq w h =
      let polled = is_cancelled-Polls b id patient seq.req w in
      elim (Bool-cases (seq.remaining == 0)) [
        | inl e ↦ rw (e, h.1) (refl, omega arith, refl)
        | inr e ↦ elim (Bool-cases (is_cancelled b seq.req w).2) [
          | inl f ↦ rw (e, f, h.1) (polled.before, omega (arith, polled.stays f), refl)
          | inr f ↦ rw (e, f, h.0, h.1) (polled.before, omega (arith, polled.own), refl)
        ]
      ]

  -- One token more.
  Advanced : Worker → ActiveSeq → Worker × ActiveSeq → Type 0
  Advanced w seq r =
      (answers id (r.0) + owes id (r.1) ≡ answers id w + asks_seq id seq) × IsLiveIf (r.1)

  advance_with-Advanced :
      (new_tok : ℕ) (seq : ActiveSeq) (w : Worker)
      → IsLive seq
      → Advanced w seq (advance_with b new_tok seq w)
  unfolding Advanced advance_with
  advance_with-Advanced new_tok seq0 w h =
      let seq = record seq0 { remaining = seq0.remaining - 1; stats = predicted seq0.stats } in
      let last = seq.remaining == 0 in
      let (w', req) = send b seq.req (b.token_to_piece new_tok) last w in
      let sent = send-answers seq.req (b.token_to_piece new_tok) last w in
      let settled = settle-answers new_tok (record seq { req = req }) w' h in
      let same = sent.1 in
      elim (Bool-cases (b.is_eog new_tok)) [
        | inl e ↦ rw e (refl, λ f. cc)
        | inr e ↦ rw e (
          (elim (Bool-cases (seq0.remaining - 1 == 0)) [
            | inl f ↦ ground (arith, sent.0, settled.0, settled.1, same, f)
            | inr f ↦ ground (arith, sent.0, settled.0, settled.1, same, f)
          ]),
          λ f. settled.2,
        )
      ]

  pub advance_all-answers :
      (seqs : List ActiveSeq) (w : Worker)
      → All IsLive seqs
      → let (w', seqs') = advance_all b w seqs in
        (answers id w' + tally (owes id) seqs' ≡ answers id w + tally (asks_seq id) seqs)
        × All IsLiveIf seqs'
  unfolding Advanced advance_all advance sample
  advance_all-answers [] w h = (refl, tt)
  advance_all-answers (seq ∷ seqs) w h =
      let m = set_sequence_cell_count seq.seq_id (seq.pos + 1) w.mapper in
      let (w', new_tok) = sample b (set_mapper m w) in
      let one =
        advance_with-Advanced new_tok
          (record seq { cached_tokens = seq.cached_tokens ++ seq.next_token ∷ [] }) w' (h.0) in
      let ih = advance_all-answers seqs (advance b seq w).0 (h.1) in
      (omega (arith, one.0, ih.0), (one.1, ih.1))
