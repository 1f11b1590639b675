-- ===== src/Worker/Entries.antt =====
-- The batch of `fused_step` of src/worker.cpp against the tokens that wait to be decoded.
pub mod Logits
use radixforge.Common.{
  ℕ, zero, suc, ◌+◌, ◌-◌, ◌≤◌, ◌<◌, ◌≡◌, refl, sym, ap, ◌∙◌, min, Bool, true, false, List, [], ◌∷◌,
  ◌++◌, Option, none, some, arith, ◌==◌, ◌||◌, if◌then◌else◌, length, take, drop, map,
  length-append, length-drop, append_assoc, All, Bool-cases, inl, inr,
}
use radixforge.Worker.State.{PrefillCtx, ActiveSeq, BatchEntry, Bridge}
use radixforge.Worker.Batch.{
  prompt_entries, PromptSubmission, no_submission, remaining_prompt, take_prompt, submission,
  submitted_entries, submit, make_batch, sum_tokens,
}

-- The next token of a sequence, at its position.
abbrev pub next_entry : ActiveSeq → BatchEntry
next_entry seq = record {
  token = seq.next_token;
  pos = seq.pos;
  seq_id = seq.seq_id;
  logits = true;
}

-- The elements with their places in a list, from a first place.
abbrev pub numbered : ℕ → List ℕ → List (ℕ × ℕ)
numbered i [] = []
numbered i (t ∷ ts) = (i, t) ∷ numbered (i + 1) ts

-- The token at a place of what the prompt adds to the cached tokens, the last with logits.
abbrev pub entry_at : PrefillCtx → ℕ × ℕ → BatchEntry
entry_at ctx (i, t) = record {
  token = t;
  pos = ctx.prep.cached_pos + i;
  seq_id = ctx.prep.seq_id;
  logits = i + 1 == length ctx.prep.delta;
}

-- What is left of the prompt of one context: its entries but for the first `delta_start`.
abbrev pub waiting_entries : PrefillCtx → List BatchEntry
waiting_entries ctx = drop ctx.delta_start (map (entry_at ctx) (numbered 0 ctx.prep.delta))

-- And of all prompts, in the order of `prefilling`.
abbrev pub all_waiting : List PrefillCtx → List BatchEntry
all_waiting [] = []
all_waiting (ctx ∷ ctxs) = waiting_entries ctx ++ all_waiting ctxs

-- The same as `prompt_entries` makes them, without a bound.
abbrev left_entries : PrefillCtx → List BatchEntry
left_entries ctx =
    prompt_entries ctx.prep.seq_id true (ctx.prep.cached_pos + ctx.delta_start)
      (drop ctx.delta_start ctx.prep.delta)

abbrev all_left : List PrefillCtx → List BatchEntry
all_left [] = []
all_left (ctx ∷ ctxs) = left_entries ctx ++ all_left ctxs

module _ (ctx : PrefillCtx) where
  prompt_entries-numbered :
      (i pos : ℕ) (ts : List ℕ)
      → pos ≡ ctx.prep.cached_pos + i
      → length ts ≡ length ctx.prep.delta - i
      → prompt_entries ctx.prep.seq_id true pos ts ≡ map (entry_at ctx) (numbered i ts)
  unfolding prompt_entries
  prompt_entries-numbered i pos [] at size = refl
  prompt_entries-numbered i pos (t ∷ []) at size =
      let last : true ≡ (i + 1 == length ctx.prep.delta) = ground arith in
      ap (λ n. record { token = t; pos = n; seq_id = ctx.prep.seq_id; logits = true } ∷ []) at
      ∙ ap
          (λ b.
            record {
              token = t;
              pos = ctx.prep.cached_pos + i;
              seq_id = ctx.prep.seq_id;
              logits = b;
            }
            ∷ [])
          last
  prompt_entries-numbered i pos (t ∷ u ∷ ts) at size =
      let more : false ≡ (i + 1 == length ctx.prep.delta) = ground arith in
      let ih =
        prompt_entries-numbered (i + 1) (pos + 1) (u ∷ ts) (omega (arith, at))
          (omega (arith, size)) in
      ap
        (λ n.
          record { token = t; pos = n; seq_id = ctx.prep.seq_id; logits = false }
          ∷ prompt_entries ctx.prep.seq_id true (pos + 1) (u ∷ ts))
        at
      ∙ ap
          (λ b.
            record {
              token = t;
              pos = ctx.prep.cached_pos + i;
              seq_id = ctx.prep.seq_id;
              logits = b;
            }
            ∷ prompt_entries ctx.prep.seq_id true (pos + 1) (u ∷ ts))
          more
      ∙ ap (◌∷◌ (entry_at ctx (i, t))) ih

  drop-numbered :
      (d i : ℕ) (ts : List ℕ)
      → map (entry_at ctx) (numbered (i + d) (drop d ts))
        ≡ drop d (map (entry_at ctx) (numbered i ts))
  drop-numbered zero i [] = refl
  drop-numbered zero i (t ∷ ts) = ap (λ n. map (entry_at ctx) (numbered n (t ∷ ts))) (omega arith)
  drop-numbered (suc d) i [] = refl
  drop-numbered (suc d) i (t ∷ ts) =
      ap (λ n. map (entry_at ctx) (numbered n (drop d ts))) (omega arith)
      ∙ drop-numbered d (i + 1) ts

  left-waiting : left_entries ctx ≡ waiting_entries ctx
  left-waiting =
      prompt_entries-numbered ctx.delta_start (ctx.prep.cached_pos + ctx.delta_start)
        (drop ctx.delta_start ctx.prep.delta) refl (length-drop ctx.delta_start ctx.prep.delta)
      ∙ ap (λ n. map (entry_at ctx) (numbered n (drop ctx.delta_start ctx.prep.delta)))
          (omega arith)
      ∙ drop-numbered ctx.delta_start 0 ctx.prep.delta

all_left-waiting : (ctxs : List PrefillCtx) → all_left ctxs ≡ all_waiting ctxs
all_left-waiting [] = refl
all_left-waiting (ctx ∷ ctxs) =
    ap (λ xs. xs ++ all_left ctxs) (left-waiting ctx)
    ∙ ap (λ xs. waiting_entries ctx ++ xs) (all_left-waiting ctxs)

take-prompt_entries :
    (s : ℕ) (pos n : ℕ) (ts : List ℕ)
    → n ≤ length ts
    → prompt_entries s (n == length ts) pos (take n ts) ≡ take n (prompt_entries s true pos ts)
unfolding prompt_entries
take-prompt_entries s pos zero ts h = refl
take-prompt_entries s pos (suc n) [] h = absurd (omega (arith, h))
take-prompt_entries s pos (suc zero) (t ∷ []) h = refl
take-prompt_entries s pos (suc (suc n)) (t ∷ []) h = absurd (omega (arith, h))
take-prompt_entries s pos (suc zero) (t ∷ u ∷ ts) h =
    let more : (1 == length (t ∷ u ∷ ts)) ≡ false = ground arith in
    ap (λ b. record { token = t; pos = pos; seq_id = s; logits = b } ∷ []) more
take-prompt_entries s pos (suc (suc n)) (t ∷ u ∷ ts) h =
    let ih = take-prompt_entries s (pos + 1) (suc n) (u ∷ ts) (omega (arith, h)) in
    let same : (suc (suc n) == length (t ∷ u ∷ ts)) ≡ (suc n == length (u ∷ ts)) = ground arith in
    ap (λ rest. record { token = t; pos = pos; seq_id = s; logits = false } ∷ rest)
      (ap (λ b. prompt_entries s b (pos + 1) (u ∷ take n ts)) same ∙ ih)

pub length-all_entries :
    (s pos : ℕ) (ts : List ℕ) → length (prompt_entries s true pos ts) ≡ length ts
unfolding prompt_entries
length-all_entries s pos [] = refl
length-all_entries s pos (t ∷ []) = refl
length-all_entries s pos (t ∷ u ∷ ts) = omega (arith, length-all_entries s (pos + 1) (u ∷ ts))

module _ {ℓ} {A : Type ℓ} where
  take-append : (n : ℕ) (xs ys : List A) → take n (xs ++ ys) ≡ take n xs ++ take (n - length xs) ys
  take-append zero [] ys = refl
  take-append (suc n) [] ys =
      let all_left : suc n - 0 ≡ suc n = omega arith in sym (ap (λ m. take m ys) all_left)
  take-append zero (x ∷ xs) ys =
      let none_left : 0 - length (x ∷ xs) ≡ 0 = omega arith in sym (ap (λ m. take m ys) none_left)
  take-append (suc n) (x ∷ xs) ys =
      let same : suc n - length (x ∷ xs) ≡ n - length xs = omega arith in
      ap (◌∷◌ x) (take-append n xs ys ∙ ap (λ m. take n xs ++ take m ys) (sym same))

  take-min : (n : ℕ) (xs : List A) → take (min (length xs) n) xs ≡ take n xs
  take-min zero [] = refl
  take-min (suc n) [] =
      let nothing : min 0 (suc n) ≡ 0 = omega arith in ap (λ m. take {A = A} m []) nothing
  take-min zero (x ∷ xs) =
      let none_left : min (length (x ∷ xs)) 0 ≡ 0 = omega arith in
      ap (λ m. take m (x ∷ xs)) none_left
  take-min (suc n) (x ∷ xs) =
      let same : min (length (x ∷ xs)) (suc n) ≡ suc (min (length xs) n) = omega arith in
      ap (λ m. take m (x ∷ xs)) same ∙ ap (◌∷◌ x) (take-min n xs)

submitted_entries-left :
    (room : ℕ) (ctx : PrefillCtx) → submitted_entries room ctx ≡ take room (left_entries ctx)
unfolding submitted_entries
submitted_entries-left room ctx =
    let rest = drop ctx.delta_start ctx.prep.delta in
    let pos = ctx.prep.cached_pos + ctx.delta_start in
    let size : remaining_prompt ctx ≡ length rest =
      omega (arith, length-drop ctx.delta_start ctx.prep.delta) in
    let all_entries = length-all_entries ctx.prep.seq_id pos rest in
    ap (λ n. prompt_entries ctx.prep.seq_id (min n room == n) pos (take (min n room) rest)) size
    ∙ take-prompt_entries ctx.prep.seq_id pos (min (length rest) room) rest (omega arith)
    ∙ ap (λ n. take (min n room) (left_entries ctx)) (sym all_entries)
    ∙ take-min room (left_entries ctx)

submit-left :
    (room idx : ℕ) (ctxs : List PrefillCtx) → (submit room idx ctxs).0 ≡ take room (all_left ctxs)
unfolding submit
submit-left zero idx [] = refl
submit-left (suc room) idx [] = refl
submit-left room idx (ctx ∷ ctxs) =
    let sub = submission room idx ctx in
    let size : length (left_entries ctx) ≡ remaining_prompt ctx = omega (
      arith,
      length-drop ctx.delta_start ctx.prep.delta,
      length-all_entries ctx.prep.seq_id (ctx.prep.cached_pos + ctx.delta_start)
          (drop ctx.delta_start ctx.prep.delta),
    ) in
    let taken : sub.tokens ≡ take_prompt room ctx = ground arith in
    let less : room - sub.tokens ≡ room - length (left_entries ctx) = omega (arith, size, taken) in
    ap (λ xs. xs ++ (submit (room - sub.tokens) (idx + sub.tokens) ctxs).0)
      (submitted_entries-left room ctx)
    ∙ ap (λ xs. take room (left_entries ctx) ++ xs)
        (submit-left (room - sub.tokens) (idx + sub.tokens) ctxs)
    ∙ ap (λ n. take room (left_entries ctx) ++ take n (all_left ctxs)) less
    ∙ sym (take-append room (left_entries ctx) (all_left ctxs))

-- The batch is the next token of each sequence that generates, at its position, and behind them as
-- many of the tokens that are left of the prompts as there is room for, in their order, the i-th of
-- those that a prompt adds at the i-th position behind its cached tokens; logits are wanted of the
-- generating sequences and of the last token of a prompt.
pub make_batch-waiting :
    (n_batch : ℕ) (seqs : List ActiveSeq) (ctxs : List PrefillCtx)
    → (make_batch n_batch seqs ctxs).0
      ≡ map next_entry seqs ++ take (n_batch - length seqs) (all_waiting ctxs)
unfolding make_batch
make_batch-waiting n_batch seqs ctxs =
    ap (λ xs. map next_entry seqs ++ xs)
      (submit-left (n_batch - length seqs) (length seqs) ctxs
        ∙ ap (take (n_batch - length seqs)) (all_left-waiting ctxs))
