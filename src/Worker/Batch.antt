-- ===== src/Worker/Batch.antt =====
-- The batch that `fused_step` of src/worker.cpp puts together.
use radixforge.Common.{
  ℕ, ◌+◌, ◌-◌, min, Bool, true, false, List, [], ◌∷◌, ◌++◌, Option, none, some, ◌==◌, ◌||◌,
  if◌then◌else◌, length, take, drop, map,
}
use radixforge.Worker.State.{PrefillCtx, ActiveSeq, BatchEntry}

-- The next token of a sequence that generates.
abbrev pub generation_entry : ActiveSeq → BatchEntry
generation_entry seq = record {
  token = seq.next_token;
  pos = seq.pos;
  seq_id = seq.seq_id;
  logits = true;
}

-- The loop over `offset`: prompt tokens at positions from `pos`; the last one asks for logits if it
-- completes the prompt.
unfoldable pub prompt_entries : ℕ → Bool → ℕ → List ℕ → List BatchEntry
prompt_entries seq_id completes pos [] = []
prompt_entries seq_id completes pos (t ∷ []) =
    record { token = t; pos = pos; seq_id = seq_id; logits = completes } ∷ []
prompt_entries seq_id completes pos (t ∷ u ∷ ts) =
    record { token = t; pos = pos; seq_id = seq_id; logits = false }
    ∷ prompt_entries seq_id completes (pos + 1) (u ∷ ts)

-- One for each context of `prefilling`; no `tokens` means that nothing is submitted for it.
pub record PromptSubmission : Type 0 where
  pub tokens : ℕ
  pub logit_index : Option ℕ

abbrev pub no_submission : PromptSubmission
no_submission = record { tokens = 0; logit_index = none }

abbrev pub remaining_prompt : PrefillCtx → ℕ
remaining_prompt ctx = length ctx.prep.delta - ctx.delta_start

-- `take`, where the batch has room for `room` prompt tokens.
abbrev pub take_prompt : ℕ → PrefillCtx → ℕ
take_prompt room ctx = min (remaining_prompt ctx) room

-- The body of the loop over `prefilling`, with the batch at `batch_idx`. Without room, or with the
-- prompt submitted, nothing is taken.
abbrev pub submission : ℕ → ℕ → PrefillCtx → PromptSubmission
submission room batch_idx ctx =
    if remaining_prompt ctx == 0 || room == 0 then no_submission else record {
      tokens = take_prompt room ctx;
      logit_index =
          if take_prompt room ctx == remaining_prompt ctx
          then some (batch_idx + take_prompt room ctx - 1)
          else none;
    }

unfoldable pub submitted_entries : ℕ → PrefillCtx → List BatchEntry
unfolding prompt_entries
submitted_entries room ctx =
    prompt_entries ctx.prep.seq_id (take_prompt room ctx == remaining_prompt ctx)
      (ctx.prep.cached_pos + ctx.delta_start)
      (take (take_prompt room ctx) (drop ctx.delta_start ctx.prep.delta))

-- The loop over `prefilling`; `room` is `capacity - prompt_tokens`.
unfoldable pub submit : ℕ → ℕ → List PrefillCtx → List BatchEntry × List PromptSubmission
unfolding submitted_entries
submit room batch_idx [] = ([], [])
submit room batch_idx (ctx ∷ ctxs) =
    let sub = submission room batch_idx ctx in
    let (entries, subs) = submit (room - sub.tokens) (batch_idx + sub.tokens) ctxs in
    (submitted_entries room ctx ++ entries, sub ∷ subs)

unfoldable pub make_batch :
    ℕ → List ActiveSeq → List PrefillCtx → List BatchEntry × List PromptSubmission
unfolding submit
make_batch n_batch seqs prefilling =
    let decoding = length seqs in
    let (entries, subs) = submit (n_batch - decoding) decoding prefilling in
    (map generation_entry seqs ++ entries, subs)

unfoldable pub sum_tokens : List PromptSubmission → ℕ
sum_tokens [] = 0
sum_tokens (sub ∷ subs) = sub.tokens + sum_tokens subs
