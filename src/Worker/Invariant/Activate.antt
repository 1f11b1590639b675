-- ===== src/Worker/Invariant/Activate.antt =====
-- The contexts behind a decode of src/worker.cpp: those with the prompt decoded become active or
-- leave, the others stay with less to submit.
use radixforge.Common.{
  ℕ, suc, ◌+◌, ◌≤◌, ◌≡◌, refl, List, [], ◌∷◌, Option, none, some, arith, ◌==◌, leb, length, All,
  Bool-cases, inl, inr,
}
use radixforge.Worker.State.{PrefillCtx, ActiveSeq, Bridge, Worker, is_cancelled}
use radixforge.Worker.Batch.{PromptSubmission, sum_tokens}
use radixforge.Worker.Finish.{
  Pending, commit_one, commit, sample, Activation, stays, leaves, activates, activate_with,
  activate, activate_if, still, newly, activate_all,
}
use radixforge.Worker.Invariant.{
  IsActive, IsContext, IsPending, load, context_load, prompt_load, is_cancelled-max_tokens,
}
use radixforge.Worker.Invariant.Batch.{Taken, Aligned}

-- A context with logits has its whole prompt decoded; any other is still pending.
abbrev pub IsCommitted : Bridge → Pending → Type 0
IsCommitted b (ctx, none) = IsPending b ctx
IsCommitted b (ctx, some i) = IsContext b ctx

abbrev pub pending_load : List Pending → ℕ
pending_load [] = 0
pending_load (p ∷ ps) = context_load (p.0) + pending_load ps

-- How many have logits.
abbrev pub ready : Option ℕ → ℕ
ready none = 0
ready (some i) = 1

abbrev pub completed : List Pending → ℕ
completed [] = 0
completed (p ∷ ps) = ready (p.1) + completed ps

-- One context is committed.
abbrev CommitsOne : Bridge → PrefillCtx → PromptSubmission → Pending → Type 0
CommitsOne b ctx sub p =
    IsCommitted b p
    × (context_load (p.0) + sub.tokens ≡ context_load ctx)
    × (ready (p.1) ≤ sub.tokens)

commit_one-CommitsOne :
    (b : Bridge) (ctx : PrefillCtx) (sub : PromptSubmission) (w : Worker)
    → IsPending b ctx
    → Taken ctx sub
    → CommitsOne b ctx sub (commit_one ctx sub w).1
unfolding commit_one
commit_one-CommitsOne b ctx sub w h t = elim (Bool-cases (sub.tokens == 0)) [
  | inl e ↦ rw e (h, ground arith, omega arith)
  | inr e ↦ elim (Bool-cases (ctx.delta_start + sub.tokens == length ctx.prep.delta)) [
    | inl f ↦
        let (i, found) = t.1 (ground arith) (ground arith) in
        rw (e, f, found) (h.0, ground arith, ground arith)
    | inr f ↦ rw (e, f) ((h.0, ground arith), ground arith, omega arith)
  ]
]

pub record Commits (b : Bridge) (ctxs : List PrefillCtx) (subs : List PromptSubmission)
    (ps : List Pending) : Type 0 where
  pub inv : All (IsCommitted b) ps
  pub loads : pending_load ps + sum_tokens subs ≡ prompt_load ctxs
  pub complete : completed ps ≤ sum_tokens subs

pub commit-Commits :
    (b : Bridge) (w : Worker) (ctxs : List PrefillCtx) (subs : List PromptSubmission)
    → All (IsPending b) ctxs
    → Aligned ctxs subs
    → Commits b ctxs subs (commit w ctxs subs).1
unfolding commit sum_tokens
commit-Commits b w [] [] h k = record { inv = tt; loads = refl; complete = omega arith }
commit-Commits b w [] (sub ∷ subs) h k = absurd k
commit-Commits b w (ctx ∷ ctxs) [] h k = absurd k
commit-Commits b w (ctx ∷ ctxs) (sub ∷ subs) h k =
    let (w', p) = commit_one ctx sub w in
    let one = commit_one-CommitsOne b ctx sub w (h.0) (k.0) in
    let ih = commit-Commits b (commit_one ctx sub w).0 ctxs subs (h.1) (k.1) in
    record {
      inv = (one.0, ih.inv);
      loads = omega (arith, one.1, ih.loads);
      complete = omega (arith, one.2, ih.complete);
    }

-- What became of one context.
abbrev IsActivated : Bridge → Pending → Activation → Type 0
IsActivated b p (stays ctx) = IsPending b ctx × (context_load ctx ≤ context_load (p.0))
IsActivated b p leaves = Unit
IsActivated b p (activates seq) =
    IsActive b seq × (suc seq.remaining ≤ context_load (p.0)) × (ready (p.1) ≡ 1)

activate_with-IsActivated :
    (b : Bridge) (first_tok i : ℕ) (old ctx : PrefillCtx) (w : Worker)
    → IsContext b ctx
    → ctx.req.max_tokens ≡ old.req.max_tokens
    → IsActivated b (old, some i) (activate_with b first_tok ctx w).1
unfolding activate_with
activate_with-IsActivated b first_tok i old ctx w h same = elim (Bool-cases (b.is_eog first_tok)) [
  | inl e ↦ rw e tt
  | inr e ↦ elim (Bool-cases (leb ctx.req.max_tokens 1)) [
    | inl f ↦ rw (e, f) tt
    | inr f ↦ rw (e, f) ((ground arith, ground arith, omega (arith, h.0)), ground arith, refl)
  ]
]

activate_if-IsActivated :
    (b : Bridge) (p : Pending) (w : Worker)
    → IsCommitted b p
    → IsActivated b p (activate_if b p w).1
unfolding activate_if activate
activate_if-IsActivated b (ctx, none) w h = (h, omega arith)
activate_if-IsActivated b (ctx, some i) w0 h =
    let (w, req, gone) = is_cancelled b ctx.req w0 in
    let (w', first_tok) = sample b w in
    let same = is_cancelled-max_tokens b ctx.req w0 in
    elim (Bool-cases (is_cancelled b ctx.req w0).2) [
      | inl e ↦ rw e tt
      | inr e ↦ rw e (
          activate_with-IsActivated b first_tok i ctx (record ctx { req = req }) w'
            (h.0, omega (arith, h.1, same)) same)
    ]

pub record Activates (b : Bridge) (ps : List Pending) (ctxs : List PrefillCtx)
    (seqs : List ActiveSeq) : Type 0 where
  pub pending : All (IsPending b) ctxs
  pub active : All (IsActive b) seqs
  pub size : length seqs ≤ completed ps
  pub loads : prompt_load ctxs + load seqs ≤ pending_load ps

sorted-Activates :
    (b : Bridge) (p : Pending) (ps : List Pending) (a : Activation) (ctxs : List PrefillCtx)
    (seqs : List ActiveSeq)
    → IsActivated b p a
    → Activates b ps ctxs seqs
    → Activates b (p ∷ ps) (still a ctxs) (newly a seqs)
sorted-Activates b p ps (stays ctx) ctxs seqs h ih = record {
  pending = (h.0, ih.pending);
  active = ih.active;
  size = omega (arith, ih.size);
  loads = omega (arith, h.1, ih.loads);
}
sorted-Activates b p ps leaves ctxs seqs h ih = record {
  pending = ih.pending;
  active = ih.active;
  size = omega (arith, ih.size);
  loads = omega (arith, ih.loads);
}
sorted-Activates b p ps (activates seq) ctxs seqs h ih = record {
  pending = ih.pending;
  active = (h.0, ih.active);
  size = omega (arith, h.2, ih.size);
  loads = omega (arith, h.1, ih.loads);
}

pub activate_all-Activates :
    (b : Bridge) (w : Worker) (ps : List Pending)
    → All (IsCommitted b) ps
    → let (w', ctxs, seqs) = activate_all b w ps in Activates b ps ctxs seqs
unfolding activate_all
activate_all-Activates b w [] h = record {
  pending = tt;
  active = tt;
  size = omega arith;
  loads = omega arith;
}
activate_all-Activates b w (p ∷ ps) h =
    let (w', a) = activate_if b p w in
    sorted-Activates b p ps a _ _ (activate_if-IsActivated b p w (h.0))
      (activate_all-Activates b (activate_if b p w).0 ps (h.1))
