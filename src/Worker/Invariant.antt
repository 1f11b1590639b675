-- ===== src/Worker/Invariant.antt =====
-- What holds of each sequence and each context between two steps of src/worker.cpp, and the work
-- that is left.
pub mod Batch
pub mod Prepare
pub mod Advance
pub mod Activate
use radixforge.Common.{
  ℕ, zero, suc, ◌+◌, ◌-◌, ◌≤◌, ◌<◌, ◌≡◌, refl, ap, Bool, true, false, List, [], ◌∷◌, ◌++◌, arith,
  if◌then◌else◌, length, All, Bool-cases, inl, inr,
}
use radixforge.Worker.State.{InferenceRequest, PrefillCtx, ActiveSeq, Bridge, Worker, is_cancelled}
use radixforge.Worker.Batch.{remaining_prompt}
use radixforge.Worker.Retire.{
  mark_cancelled, retire, retire_cancelled, retire_one, retire_completed, give_up_ctx,
  drop_abandoned,
}

-- Tokens are left to generate, they fit in the context, and as many tokens are cached as there are
-- positions before the next one.
abbrev pub IsActive : Bridge → ActiveSeq → Type 0
IsActive b seq =
    (0 < seq.remaining)
    × (seq.pos + seq.remaining + 5 ≤ b.n_ctx)
    × (length seq.cached_tokens ≡ seq.pos)

-- The prompt is the cached part and the delta, and fits with what may be generated.
abbrev pub IsContext : Bridge → PrefillCtx → Type 0
IsContext b ctx =
    (ctx.prep.cached_pos + length ctx.prep.delta ≡ length ctx.tokens)
    × (length ctx.tokens + ctx.req.max_tokens + 4 ≤ b.n_ctx)

-- And a part of the delta is still to be submitted.
abbrev pub IsPending : Bridge → PrefillCtx → Type 0
IsPending b ctx = IsContext b ctx × (ctx.delta_start < length ctx.prep.delta)

-- The tokens that may still be decoded, and one for each sequence.
abbrev pub load : List ActiveSeq → ℕ
load [] = 0
load (seq ∷ seqs) = suc seq.remaining + load seqs

abbrev pub context_load : PrefillCtx → ℕ
context_load ctx = remaining_prompt ctx + ctx.req.max_tokens + 2

abbrev pub prompt_load : List PrefillCtx → ℕ
prompt_load [] = 0
prompt_load (ctx ∷ ctxs) = context_load ctx + prompt_load ctxs

-- The second list comes from the first by leaving sequences out.
pub record Shrinks (b : Bridge) (seqs seqs' : List ActiveSeq) : Type 0 where
  pub inv : All (IsActive b) seqs → All (IsActive b) seqs'
  pub size : length seqs' ≤ length seqs
  pub loads : load seqs' ≤ load seqs

pub record Drops (b : Bridge) (ctxs ctxs' : List PrefillCtx) : Type 0 where
  pub inv : All (IsPending b) ctxs → All (IsPending b) ctxs'
  pub loads : prompt_load ctxs' ≤ prompt_load ctxs

pub is_cancelled-max_tokens :
    (b : Bridge) (req : InferenceRequest) (w : Worker)
    → (is_cancelled b req w).1.max_tokens ≡ req.max_tokens
unfolding is_cancelled
is_cancelled-max_tokens b req w = ground arith

pub mark_cancelled-Shrinks :
    (b : Bridge) (w : Worker) (seqs : List ActiveSeq) → Shrinks b seqs (mark_cancelled b w seqs).1
unfolding mark_cancelled
mark_cancelled-Shrinks b w [] = record { inv = λ h. h; size = omega arith; loads = omega arith }
mark_cancelled-Shrinks b w (seq ∷ seqs) =
    let ih = mark_cancelled-Shrinks b (is_cancelled b seq.req w).0 seqs in
    record {
      inv = λ h. (h.0, ih.inv (h.1));
      size = omega (arith, ih.size);
      loads = omega (arith, ih.loads);
    }

pub retire_cancelled-Shrinks :
    (b : Bridge) (w : Worker) (seqs : List ActiveSeq) → Shrinks b seqs (retire_cancelled b w seqs).1
unfolding retire_cancelled
retire_cancelled-Shrinks b w [] = record { inv = λ h. h; size = omega arith; loads = omega arith }
retire_cancelled-Shrinks b w (seq ∷ seqs) =
    let ih = retire_cancelled-Shrinks b (if seq.done then retire b false seq w else w) seqs in
    kept seq.done ih
  where
    kept :
        (d : Bool) {rest : List ActiveSeq}
        → Shrinks b seqs rest
        → Shrinks b (seq ∷ seqs) (if d then rest else seq ∷ rest)
    kept true ih = record {
      inv = λ h. ih.inv (h.1);
      size = omega (arith, ih.size);
      loads = omega (arith, ih.loads);
    }
    kept false ih = record {
      inv = λ h. (h.0, ih.inv (h.1));
      size = omega (arith, ih.size);
      loads = omega (arith, ih.loads);
    }

pub drop_abandoned-Drops :
    (b : Bridge) (w : Worker) (ctxs : List PrefillCtx) → Drops b ctxs (drop_abandoned b w ctxs).1
unfolding drop_abandoned
drop_abandoned-Drops b w [] = record { inv = λ h. h; loads = omega arith }
drop_abandoned-Drops b w0 (ctx ∷ ctxs) =
    let (w, req, gone) = is_cancelled b ctx.req w0 in
    let ih = drop_abandoned-Drops b (if gone then give_up_ctx ctx w else w) ctxs in
    kept gone req (is_cancelled-max_tokens b ctx.req w0) ih
  where
    kept :
        (d : Bool) (req : InferenceRequest) {rest : List PrefillCtx}
        → req.max_tokens ≡ ctx.req.max_tokens
        → Drops b ctxs rest
        → Drops b (ctx ∷ ctxs) (if d then rest else record ctx { req = req } ∷ rest)
    kept true req e ih = record { inv = λ h. ih.inv (h.1); loads = omega (arith, ih.loads) }
    kept false req e ih = record {
      inv = λ h. (((h.0.0.0, omega (arith, h.0.0.1, e)), h.0.1), ih.inv (h.1));
      loads = omega (arith, ih.loads, e);
    }
