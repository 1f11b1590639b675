-- ===== src/Server/Text/Run.antt =====
-- The streamed answer of src/http_server.cpp, call by call.
use radixforge.Common.{
  ℕ, ◌+◌, ◌≡◌, refl, sym, ap, ◌∙◌, Bool, true, false, ◌||◌, if_not, if_ind, subst, List, [], ◌∷◌,
  ◌++◌, Option, append-nil, append_assoc, All,
}
use radixforge.Worker.State.{InferenceStats}
use radixforge.Server.Stream.{
  keep_alive, Sink, StreamState, new_stream, send_chunk, stream_token, stream_wake, StreamCall,
  on_token, on_error, wake, stream_step, stream_run,
}
use radixforge.Server.Text.{
  read_text, said, IsOngoing, reliable, read_text-append, Delivers, Ends, send_chunk-Delivers,
  send_chunk-Ends,
}

-- A token of the worker reaches the chunk.
token-sent :
    (P : StreamState → Type 0) (st : StreamState) (token : List ℕ) (is_last : Bool)
    (stats : Option InferenceStats)
    → st.cancelled ≡ false
    → P (
        send_chunk reliable
          (st.incomplete_utf8 ++ token)
          is_last
          stats
          (record st { asked = st.asked + 1 }))
    → P (stream_token reliable token is_last stats st)
unfolding stream_token
token-sent P st token is_last stats stays p = if_not P st.cancelled _ _ stays p

heard_more :
    (st : StreamState) (heard token : List ℕ)
    → Delivers st heard
    → read_text st.sent ++ (st.incomplete_utf8 ++ token) ≡ heard ++ token
heard_more st heard token d =
    sym (append_assoc (read_text st.sent) st.incomplete_utf8 token) ∙ ap (λ xs. xs ++ token) d.text

stream_step-Delivers :
    (st : StreamState) (heard : List ℕ) (c : StreamCall)
    → IsOngoing c
    → Delivers st heard
    → Delivers (stream_step reliable st c) (heard ++ said (c ∷ []))
unfolding stream_step stream_wake
stream_step-Delivers st heard (on_token token is_last stats) ongoing d =
    let asked : StreamState = record st { asked = st.asked + 1 } in
    let content = st.incomplete_utf8 ++ token in
    let sent = send_chunk-Delivers content (read_text st.sent) stats asked d.stays refl in
    let all_of = heard_more st heard token d ∙ ap (λ xs. heard ++ xs) (sym (append-nil token)) in
    subst (λ xs. Delivers (stream_token reliable token is_last stats st) xs) all_of
      (token-sent (λ x. Delivers x (read_text st.sent ++ content)) st token is_last stats d.stays
        (subst
          (λ l. Delivers (send_chunk reliable content l stats asked) (read_text st.sent ++ content))
          (sym ongoing) sent))
stream_step-Delivers st heard (on_error message status) ongoing d = absurd ongoing
stream_step-Delivers st heard wake ongoing d =
    let same = d.text ∙ sym (append-nil heard) in
    let nothing = read_text-append st.sent keep_alive ∙ append-nil (read_text st.sent) in
    if_ind (λ x. Delivers x (heard ++ [])) (st.done || st.cancelled) _ _
      (record { stays = d.stays; text = same })
      (record { stays = d.stays; text = ap (λ xs. xs ++ st.incomplete_utf8) nothing ∙ same })

stream_run-Delivers :
    (st : StreamState) (heard : List ℕ) (cs : List StreamCall)
    → All IsOngoing cs
    → Delivers st heard
    → Delivers (stream_run reliable st cs) (heard ++ said cs)
unfolding stream_run
stream_run-Delivers st heard [] h d = subst (Delivers st) (sym (append-nil heard)) d
stream_run-Delivers st heard (c ∷ cs) h d =
    let next = stream_step-Delivers st heard c (h.0) d in
    let rest =
      stream_run-Delivers (stream_step reliable st c) (heard ++ said (c ∷ [])) cs (h.1) next in
    subst (Delivers (stream_run reliable (stream_step reliable st c) cs))
      (append_assoc heard (said (c ∷ [])) (said cs) ∙ ap (λ xs. heard ++ xs) (said-cons c cs)) rest
  where
    said-cons : (d : StreamCall) (ds : List StreamCall) → said (d ∷ []) ++ said ds ≡ said (d ∷ ds)
    said-cons (on_token token is_last stats) ds = ap (λ xs. xs ++ said ds) (append-nil token)
    said-cons (on_error message status) ds = refl
    said-cons wake ds = refl

stream_run-append :
    (k : Sink) (st : StreamState) (cs ds : List StreamCall)
    → stream_run k st (cs ++ ds) ≡ stream_run k (stream_run k st cs) ds
unfolding stream_run
stream_run-append k st [] ds = refl
stream_run-append k st (c ∷ cs) ds = stream_run-append k (stream_step k st c) cs ds

said-append : (cs ds : List StreamCall) → said (cs ++ ds) ≡ said cs ++ said ds
said-append [] ds = refl
said-append (on_token token is_last stats ∷ cs) ds =
    ap (λ xs. token ++ xs) (said-append cs ds) ∙ sym (append_assoc token (said cs) (said ds))
said-append (on_error message status ∷ cs) ds = said-append cs ds
said-append (wake ∷ cs) ds = said-append cs ds

-- An answer that ends with a last token.
abbrev pub ended : List StreamCall → List ℕ → Option InferenceStats → List StreamCall
ended cs token stats = cs ++ on_token token true stats ∷ []

pub said-ended :
    (cs : List StreamCall) (token : List ℕ) (stats : Option InferenceStats)
    → said cs ++ token ≡ said (ended cs token stats)
said-ended cs token stats =
    ap (λ xs. said cs ++ xs) (sym (append-nil token))
    ∙ sym (said-append cs (on_token token true stats ∷ []))

pub stream_run-Ends :
    (cs : List StreamCall) (token : List ℕ) (stats : Option InferenceStats)
    → All IsOngoing cs
    → Ends (stream_run reliable new_stream (ended cs token stats)) (said (ended cs token stats))
unfolding stream_run stream_step
stream_run-Ends cs token stats h =
    let st = stream_run reliable new_stream cs in
    let d = stream_run-Delivers new_stream [] cs h (record { stays = refl; text = refl }) in
    let content = st.incomplete_utf8 ++ token in
    let asked : StreamState = record st { asked = st.asked + 1 } in
    let sent =
      token-sent (λ x. Ends x (read_text st.sent ++ content)) st token true stats d.stays
        (send_chunk-Ends content (read_text st.sent) stats asked d.stays refl) in
    let all_of = heard_more st (said cs) token d ∙ said-ended cs token stats in
    subst (λ x. Ends x (said (ended cs token stats)))
      (sym (stream_run-append reliable new_stream cs (on_token token true stats ∷ [])))
      (subst (Ends (stream_token reliable token true stats st)) all_of sent)
