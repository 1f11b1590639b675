-- ===== src/Worker/Invariant/Batch.antt =====
-- The batch that `fused_step` of src/worker.cpp puts together: its size, its positions, and what is
-- submitted of each prompt.
use radixforge.Common.{
  ℕ, zero, suc, ◌+◌, ◌-◌, ◌≤◌, ◌<◌, ◌≡◌, refl, min, Bool, List, [], ◌∷◌, some, arith, ◌==◌, ◌||◌,
  length, take, drop, map, length-append, length-drop, All, All-append, Bool-cases, inl, inr,
}
use radixforge.Worker.State.{PrefillCtx, ActiveSeq, BatchEntry, Bridge}
use radixforge.Worker.Batch.{
  generation_entry, prompt_entries, PromptSubmission, remaining_prompt, take_prompt, submission,
  submitted_entries, submit, make_batch, sum_tokens,
}
use radixforge.Worker.Invariant.{IsActive, IsPending}

-- A part of the rest of the prompt, with its last logits wanted if it is all of the rest.
abbrev pub Taken : PrefillCtx → PromptSubmission → Type 0
Taken ctx sub =
    (sub.tokens ≤ remaining_prompt ctx)
    × (0 < sub.tokens → sub.tokens ≡ remaining_prompt ctx → (i : ℕ) × (sub.logit_index ≡ some i))

abbrev pub Aligned : List PrefillCtx → List PromptSubmission → Type 0
Aligned [] [] = Unit
Aligned [] (sub ∷ subs) = ⊥
Aligned (ctx ∷ ctxs) [] = ⊥
Aligned (ctx ∷ ctxs) (sub ∷ subs) = Taken ctx sub × Aligned ctxs subs

submission-Taken : (room idx : ℕ) (ctx : PrefillCtx) → Taken ctx (submission room idx ctx)
submission-Taken room idx ctx = elim (Bool-cases (remaining_prompt ctx == 0 || room == 0)) [
  | inl e ↦ rw e (omega arith, λ p. absurd (omega arith))
  | inr e ↦ rw e (omega arith, λ p full. (idx + take_prompt room ctx - 1, ground arith))
]

pub submission-tokens :
    (room idx : ℕ) (ctx : PrefillCtx) → (submission room idx ctx).tokens ≡ take_prompt room ctx
submission-tokens room idx ctx = ground arith

pub submit-Aligned : (room idx : ℕ) (ctxs : List PrefillCtx) → Aligned ctxs (submit room idx ctxs).1
unfolding submit
submit-Aligned room idx [] = tt
submit-Aligned room idx (ctx ∷ ctxs) =
    let sub = submission room idx ctx in
    (submission-Taken room idx ctx, submit-Aligned (room - sub.tokens) (idx + sub.tokens) ctxs)

length-prompt_entries :
    (s : ℕ) (completes : Bool) (pos : ℕ) (ts : List ℕ)
    → length (prompt_entries s completes pos ts) ≡ length ts
unfolding prompt_entries
length-prompt_entries s completes pos [] = refl
length-prompt_entries s completes pos (t ∷ []) = refl
length-prompt_entries s completes pos (t ∷ u ∷ ts) =
    omega (arith, length-prompt_entries s completes (pos + 1) (u ∷ ts))

pub length-take : (n : ℕ) (xs : List ℕ) → length (take n xs) ≡ min n (length xs)
length-take zero xs = omega arith
length-take (suc n) [] = omega arith
length-take (suc n) (x ∷ xs) = omega (arith, length-take n xs)

pub length-submitted_entries :
    (room : ℕ) (ctx : PrefillCtx) → length (submitted_entries room ctx) ≡ take_prompt room ctx
unfolding submitted_entries
length-submitted_entries room ctx =
    let n = take_prompt room ctx in
    let rest = drop ctx.delta_start ctx.prep.delta in
    omega (
      arith,
      length-prompt_entries ctx.prep.seq_id (take_prompt room ctx == remaining_prompt ctx)
          (ctx.prep.cached_pos + ctx.delta_start) (take n rest),
      length-take n rest,
      length-drop ctx.delta_start ctx.prep.delta,
    )

-- The entries are as many as the tokens submitted, which there is room for.
pub submit_sizes :
    (room idx : ℕ) (ctxs : List PrefillCtx)
    → let (entries, subs) = submit room idx ctxs in
      (length entries ≡ sum_tokens subs) × (sum_tokens subs ≤ room)
unfolding submit sum_tokens
submit_sizes room idx [] = (refl, omega arith)
submit_sizes room idx (ctx ∷ ctxs) =
    let sub = submission room idx ctx in
    let rest = submit (room - sub.tokens) (idx + sub.tokens) ctxs in
    let ih = submit_sizes (room - sub.tokens) (idx + sub.tokens) ctxs in
    let taken = submission-tokens room idx ctx in
    (
      omega (
        arith,
        ih.0,
        taken,
        length-append (submitted_entries room ctx) (rest.0),
        length-submitted_entries room ctx,
      ),
      omega (arith, ih.1, taken),
    )

-- Something is submitted where there is room and a prompt is pending.
pub submit_progress :
    (b : Bridge) (room idx : ℕ) (ctx : PrefillCtx) (ctxs : List PrefillCtx)
    → 0 < room
    → IsPending b ctx
    → 0 < sum_tokens (submit room idx (ctx ∷ ctxs)).1
unfolding submit sum_tokens
submit_progress b room idx ctx ctxs h p = omega (arith, h, p.1, submission-tokens room idx ctx)

-- All positions are in the context.
abbrev pub InContext : Bridge → BatchEntry → Type 0
InContext b e = e.pos < b.n_ctx

prompt_entries-InContext :
    (b : Bridge) (s : ℕ) (completes : Bool) (pos : ℕ) (ts : List ℕ)
    → pos + length ts ≤ b.n_ctx
    → All (InContext b) (prompt_entries s completes pos ts)
unfolding prompt_entries
prompt_entries-InContext b s completes pos [] h = tt
prompt_entries-InContext b s completes pos (t ∷ []) h = (omega arith, tt)
prompt_entries-InContext b s completes pos (t ∷ u ∷ ts) h =
    (omega arith, prompt_entries-InContext b s completes (pos + 1) (u ∷ ts) (omega (arith, h)))

submitted-InContext :
    (b : Bridge) (room : ℕ) (ctx : PrefillCtx)
    → IsPending b ctx
    → All (InContext b) (submitted_entries room ctx)
unfolding submitted_entries
submitted-InContext b room ctx p =
    let n = take_prompt room ctx in
    let rest = drop ctx.delta_start ctx.prep.delta in
    prompt_entries-InContext b ctx.prep.seq_id (n == remaining_prompt ctx)
      (ctx.prep.cached_pos + ctx.delta_start) (take n rest)
      (omega
        (arith, p.1, p.0.0, p.0.1, length-take n rest, length-drop ctx.delta_start ctx.prep.delta))

submit-InContext :
    (b : Bridge) (room idx : ℕ) (ctxs : List PrefillCtx)
    → All (IsPending b) ctxs
    → All (InContext b) (submit room idx ctxs).0
unfolding submit
submit-InContext b room idx [] h = tt
submit-InContext b room idx (ctx ∷ ctxs) h =
    let sub = submission room idx ctx in
    All-append (InContext b) (submitted_entries room ctx) _ (submitted-InContext b room ctx (h.0))
      (submit-InContext b (room - sub.tokens) (idx + sub.tokens) ctxs (h.1))

generation-InContext :
    (b : Bridge) (seqs : List ActiveSeq)
    → All (IsActive b) seqs
    → All (InContext b) (map generation_entry seqs)
generation-InContext b [] h = tt
generation-InContext b (seq ∷ seqs) h =
    (omega (arith, h.0.0, h.0.1), generation-InContext b seqs (h.1))

pub make_batch-InContext :
    (b : Bridge) (seqs : List ActiveSeq) (ctxs : List PrefillCtx)
    → All (IsActive b) seqs
    → All (IsPending b) ctxs
    → All (InContext b) (make_batch b.n_batch seqs ctxs).0
unfolding make_batch
make_batch-InContext b seqs ctxs h k =
    All-append (InContext b) (map generation_entry seqs) _ (generation-InContext b seqs h)
      (submit-InContext b (b.n_batch - length seqs) (length seqs) ctxs k)

pub length-generation : (seqs : List ActiveSeq) → length (map generation_entry seqs) ≡ length seqs
length-generation [] = refl
length-generation (seq ∷ seqs) = omega (arith, length-generation seqs)

pub make_batch_sizes :
    (n_batch : ℕ) (seqs : List ActiveSeq) (ctxs : List PrefillCtx)
    → let (batch, subs) = make_batch n_batch seqs ctxs in
      (length batch ≡ length seqs + sum_tokens subs) × (sum_tokens subs ≤ n_batch - length seqs)
unfolding make_batch
make_batch_sizes n_batch seqs ctxs =
    let room = n_batch - length seqs in
    let sizes = submit_sizes room (length seqs) ctxs in
    (
      omega (
        arith,
        sizes.0,
        length-append (map generation_entry seqs) (submit room (length seqs) ctxs).0,
        length-generation seqs,
      ),
      sizes.1,
    )
