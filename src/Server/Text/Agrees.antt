-- ===== src/Server/Text/Agrees.antt =====
-- Both kinds of answer of src/http_server.cpp.
use radixforge.Common.{
  ℕ, ◌≡◌, refl, sym, ap, ◌∙◌, true, false, if_not, subst, List, [], ◌∷◌, ◌++◌, Option, none, some,
  append-nil, append_assoc, All,
}
use radixforge.Worker.State.{InferenceStats}
use radixforge.Server.Stream.{new_stream, StreamCall, on_token, on_error, wake, stream_run}
use radixforge.Server.Collect.{
  NonStreamState, new_collection, collect_token, collect_step, collect_run,
}
use radixforge.Server.Text.{read_text, said, IsOngoing, reliable}
use radixforge.Server.Text.Run.{ended, said-ended, stream_run-Ends}
use radixforge.Server.Collect.{completion, or_else, with_failure, respond}

-- All that was said is collected, and nothing else has happened.
record Collects (st : NonStreamState) (heard : List ℕ) : Type 0 where
  pub stays : st.cancelled ≡ false
  pub full : st.full_response ≡ heard
  pub no_stats : st.stats ≡ none
  pub no_failure : st.failure ≡ none

collect_run-Collects :
    (cs : List StreamCall) (st : NonStreamState) (heard : List ℕ)
    → All IsOngoing cs
    → Collects st heard
    → Collects (collect_run st cs) (heard ++ said cs)
unfolding collect_run collect_step collect_token
collect_run-Collects [] st heard h c = subst (Collects st) (sym (append-nil heard)) c
collect_run-Collects (wake ∷ cs) st heard h c = collect_run-Collects cs st heard (h.1) c
collect_run-Collects (on_error message status ∷ cs) st heard h c = absurd (h.0)
collect_run-Collects (on_token token is_last stats ∷ cs) st heard h c =
    let next =
      if_not (λ x. Collects x (heard ++ token)) st.cancelled _ _ c.stays
        (if_not (λ x. Collects x (heard ++ token)) is_last _ _ (h.0)
          (record {
            stays = c.stays;
            full = ap (λ xs. xs ++ token) c.full;
            no_stats = c.no_stats;
            no_failure = c.no_failure;
          })) in
    subst (Collects (collect_run (collect_token token is_last stats st) cs))
      (append_assoc heard token (said cs))
      (collect_run-Collects cs (collect_token token is_last stats st) (heard ++ token) (h.1) next)

collect_run-append :
    (st : NonStreamState) (cs ds : List StreamCall)
    → collect_run st (cs ++ ds) ≡ collect_run (collect_run st cs) ds
unfolding collect_run
collect_run-append st [] ds = refl
collect_run-append st (c ∷ cs) ds = collect_run-append (collect_step st c) cs ds

or_else-none {ℓ} : {A : Type ℓ} (o : Option A) → or_else o none ≡ o
or_else-none none = refl
or_else-none (some a) = refl

respond-ended :
    (st : NonStreamState) (heard token : List ℕ) (stats : Option InferenceStats)
    → Collects st heard
    → (respond (collect_token token true stats st)).1 ≡ completion (heard ++ token) stats
unfolding respond collect_token
respond-ended st heard token stats c =
    if_not (λ x. (respond x).1 ≡ completion (heard ++ token) stats) st.cancelled _ _ c.stays
      (ap (λ f. with_failure f (completion (st.full_response ++ token) (or_else stats st.stats)))
          c.no_failure
        ∙ ap (λ text. completion (text ++ token) (or_else stats st.stats)) c.full
        ∙ ap (λ o. completion (heard ++ token) (or_else stats o)) c.no_stats
        ∙ ap (λ o. completion (heard ++ token) o) (or_else-none stats))

-- For an answer that ends with a last token and whose peer takes all that is written: the stream is done,
-- its client reads from the chunks exactly what the worker has said, and the answer in one piece to
-- the same calls is a completion with that text and the statistics of the last token.
pub stream_run-respond :
    (cs : List StreamCall) (token : List ℕ) (stats : Option InferenceStats)
    → All IsOngoing cs
    → let calls = ended cs token stats in
      let st = stream_run reliable new_stream calls in
      (st.done ≡ true)
      × (read_text st.sent ≡ said calls)
      × ((respond (collect_run new_collection calls)).1 ≡ completion (read_text st.sent) stats)
unfolding collect_run collect_step
stream_run-respond cs token stats h =
    let calls = ended cs token stats in
    let ends = stream_run-Ends cs token stats h in
    let collected =
      collect_run-Collects cs new_collection [] h
        (record { stays = refl; full = refl; no_stats = refl; no_failure = refl }) in
    (
      ends.done,
      ends.text,
      ap (λ x. (respond x).1)
            (collect_run-append new_collection cs (on_token token true stats ∷ []))
          ∙ respond-ended (collect_run new_collection cs) (said cs) token stats collected
          ∙ ap (λ xs. completion xs stats) (said-ended cs token stats ∙ sym ends.text),
    )
