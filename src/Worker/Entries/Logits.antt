-- ===== src/Worker/Entries/Logits.antt =====
-- The logits that `fused_step` of src/worker.cpp samples the first token of a sequence from.
use radixforge.Common.{
  ℕ, zero, suc, ◌+◌, ◌-◌, ◌<◌, ◌≡◌, refl, ap, subst, ◌∙◌, true, List, [], ◌∷◌, ◌++◌, Option, none,
  some, arith, ◌==◌, ==_iff, ◌||◌, length, take, drop, map, get_elem?, length-append, length-drop,
  append_assoc, Bool-cases, inl, inr,
}
use radixforge.Worker.State.{PrefillCtx, ActiveSeq, BatchEntry}
use radixforge.Worker.Batch.{
  generation_entry, prompt_entries, PromptSubmission, remaining_prompt, take_prompt, submission,
  submitted_entries, submit, make_batch,
}
use radixforge.Worker.Invariant.Batch.{
  length-submitted_entries, length-take, submission-tokens, length-generation,
}

-- The entry is the last token of the prompt, with logits.
abbrev pub IsLast : PrefillCtx → BatchEntry → Type 0
IsLast ctx e =
    (e.logits ≡ true)
    × (e.seq_id ≡ ctx.prep.seq_id)
    × (e.pos + 1 ≡ ctx.prep.cached_pos + length ctx.prep.delta)

-- An index of logits is one of such an entry.
abbrev pub Points : List BatchEntry → PrefillCtx → Option ℕ → Type 0
Points batch ctx none = Unit
Points batch ctx (some i) = (e : BatchEntry) × (get_elem? batch i ≡ some e) × IsLast ctx e

abbrev pub AllPoint : List BatchEntry → List PrefillCtx → List PromptSubmission → Type 0
AllPoint batch [] [] = Unit
AllPoint batch [] (sub ∷ subs) = ⊥
AllPoint batch (ctx ∷ ctxs) [] = ⊥
AllPoint batch (ctx ∷ ctxs) (sub ∷ subs) =
    Points batch ctx sub.logit_index × AllPoint batch ctxs subs

get_elem?-append {ℓ} :
    {A : Type ℓ} (xs ys : List A) (j : ℕ) → get_elem? (xs ++ ys) (length xs + j) ≡ get_elem? ys j
get_elem?-append [] ys j = ap (get_elem? ys) (omega arith)
get_elem?-append (x ∷ xs) ys j =
    let same : suc (length xs) + j ≡ suc (length xs + j) = omega arith in
    ap (get_elem? (x ∷ (xs ++ ys))) same ∙ get_elem?-append xs ys j

get_elem?-left {ℓ} :
    {A : Type ℓ} (xs ys : List A) (j : ℕ) → j < length xs → get_elem? (xs ++ ys) j ≡ get_elem? xs j
get_elem?-left [] ys j h = absurd (omega (arith, h))
get_elem?-left (x ∷ xs) ys zero h = refl
get_elem?-left (x ∷ xs) ys (suc j) h = get_elem?-left xs ys j (omega (arith, h))

last-prompt_entries :
    (s pos t : ℕ) (ts : List ℕ)
    → (e : BatchEntry) × (get_elem? (prompt_entries s true pos (t ∷ ts)) (length ts) ≡ some e)
      × (e.logits ≡ true)
      × (e.seq_id ≡ s)
      × (e.pos ≡ pos + length ts)
unfolding prompt_entries
last-prompt_entries s pos t [] =
    (record { token = t; pos = pos; seq_id = s; logits = true }, refl, refl, refl, omega arith)
last-prompt_entries s pos t (u ∷ ts) =
    let (e, found, wanted, own, place) = last-prompt_entries s (pos + 1) u ts in
    (e, found, wanted, own, omega (arith, place))

last-entry :
    (s pos : ℕ) (ts : List ℕ)
    → 0 < length ts
    → (e : BatchEntry) × (get_elem? (prompt_entries s true pos ts) (length ts - 1) ≡ some e)
      × (e.logits ≡ true)
      × (e.seq_id ≡ s)
      × (e.pos + 1 ≡ pos + length ts)
last-entry s pos [] h = absurd (omega (arith, h))
last-entry s pos (t ∷ ts) h =
    let (e, found, wanted, own, place) = last-prompt_entries s pos t ts in
    let index : length (t ∷ ts) - 1 ≡ length ts = omega arith in
    (
      e,
      ap (get_elem? (prompt_entries s true pos (t ∷ ts))) index ∙ found,
      wanted,
      own,
      omega (arith, place),
    )

-- A prompt that is completed by what is submitted of it.
completed-Points :
    (room : ℕ) (before more : List BatchEntry) (ctx : PrefillCtx)
    → 0 < take_prompt room ctx
    → (take_prompt room ctx == remaining_prompt ctx) ≡ true
    → Points
        (before ++ (submitted_entries room ctx ++ more))
        ctx
        (some (length before + take_prompt room ctx - 1))
unfolding submitted_entries
completed-Points room before more ctx h full =
    let k = take_prompt room ctx in
    let ts = take k (drop ctx.delta_start ctx.prep.delta) in
    let pos = ctx.prep.cached_pos + ctx.delta_start in
    let left = length-drop ctx.delta_start ctx.prep.delta in
    let all_of : k ≡ remaining_prompt ctx = (==_iff k (remaining_prompt ctx)).0 full in
    let size : length ts ≡ k =
      omega (arith, length-take k (drop ctx.delta_start ctx.prep.delta), left, all_of) in
    let (e, found, wanted, own, place) =
      last-entry ctx.prep.seq_id pos ts (omega (arith, size, h)) in
    let index : length before + k - 1 ≡ length before + (length ts - 1) = omega (arith, size, h) in
    let entries = submitted_entries room ctx in
    let same : entries ≡ prompt_entries ctx.prep.seq_id true pos ts =
      ap (λ b. prompt_entries ctx.prep.seq_id b pos ts) full in
    (
      e,
      ap (get_elem? (before ++ (entries ++ more))) index
          ∙ get_elem?-append before (entries ++ more) (length ts - 1)
          ∙ get_elem?-left entries more (length ts - 1)
              (omega (arith, size, h, length-submitted_entries room ctx))
          ∙ ap (λ xs. get_elem? xs (length ts - 1)) same
          ∙ found,
      (wanted, own, omega (arith, place, size, left, all_of, h)),
    )

submission-Points :
    (room : ℕ) (before more : List BatchEntry) (ctx : PrefillCtx)
    → Points
        (before ++ (submitted_entries room ctx ++ more))
        ctx
        (submission room (length before) ctx).logit_index
submission-Points room before more ctx =
    elim (Bool-cases (remaining_prompt ctx == 0 || room == 0)) [
      | inl e ↦ rw e tt
      | inr e ↦ elim (Bool-cases (take_prompt room ctx == remaining_prompt ctx)) [
        | inl f ↦ rw (e, f) (completed-Points room before more ctx (ground arith) f)
        | inr f ↦ rw (e, f) tt
      ]
    ]

submit-AllPoint :
    (room idx : ℕ) (before : List BatchEntry) (ctxs : List PrefillCtx)
    → length before ≡ idx
    → let (entries, subs) = submit room idx ctxs in AllPoint (before ++ entries) ctxs subs
unfolding submit
submit-AllPoint room idx before [] e = tt
submit-AllPoint room idx before (ctx ∷ ctxs) e =
    let sub = submission room idx ctx in
    let (entries, subs) = submit (room - sub.tokens) (idx + sub.tokens) ctxs in
    let own = submitted_entries room ctx in
    let size : length (before ++ own) ≡ idx + sub.tokens = omega (
      arith,
      e,
      length-append before own,
      length-submitted_entries room ctx,
      submission-tokens room idx ctx,
    ) in
    (
      subst (λ i. Points (before ++ (own ++ entries)) ctx (submission room i ctx).logit_index) e
          (submission-Points room before entries ctx),
      subst (λ batch. AllPoint batch ctxs subs) (append_assoc before own entries)
          (submit-AllPoint (room - sub.tokens) (idx + sub.tokens) (before ++ own) ctxs size),
    )

-- Each index of logits that a prompt is given is the index in the batch of an entry of its sequence that
-- wants logits, at the last position of the prompt.
pub make_batch-AllPoint :
    (n_batch : ℕ) (seqs : List ActiveSeq) (ctxs : List PrefillCtx)
    → let (batch, subs) = make_batch n_batch seqs ctxs in AllPoint batch ctxs subs
unfolding make_batch
make_batch-AllPoint n_batch seqs ctxs =
    submit-AllPoint (n_batch - length seqs) (length seqs) (map generation_entry seqs) ctxs
      (length-generation seqs)
