-- ===== src/Server/Text.antt =====
-- What a client reads from the streamed answer of src/http_server.cpp, by the JSON parser, against
-- what the worker has said and the answer in one piece.
pub mod Run
pub mod Agrees
pub mod Whole
use radixforge.Common.{
  ℕ, ◌+◌, ◌≡◌, refl, sym, ap, ◌∙◌, Bool, true, false, not, ◌&&◌, ◌||◌, if_not, if_ind, subst, List,
  [], ◌∷◌, ◌++◌, Option, none, some, ◌==◌, if◌then◌else◌, take, drop, is_empty, length-nil,
  is_empty-length, take-append-drop, append-nil, append_assoc, All, Bool-cases, inl, inr,
}
use radixforge.Json.Reading.{Result, ok, err}
use radixforge.Json.Strings.{parse_string}
use radixforge.Json.Escape.{json_escape}
use radixforge.Json.RoundTrip.{parse_string-json_escape}
use radixforge.Api.Utf8.{complete_utf8_prefix_length}
use radixforge.Worker.State.{InferenceStats}
use radixforge.Server.Stream.{
  Message, chunk, error_event, keep_alive, done_mark, Sink, StreamState, new_stream, finish,
  send_chunk, stream_token, stream_wake, StreamCall, on_token, on_error, wake, stream_step,
  stream_run,
}
use radixforge.Server.Collect.{
  NonStreamState, new_collection, collect_token, collect_step, collect_run,
}

-- The client's side: the content of a chunk, read as a JSON string.
abbrev pub value_read : Result (List ℕ × List ℕ) → List ℕ
value_read (ok (value, rest)) = value
value_read (err e) = []

abbrev pub read_content : Message → List ℕ
read_content (chunk content is_last stats) = value_read (parse_string (34 ∷ (content ++ 34 ∷ [])))
read_content (error_event message type) = []
read_content keep_alive = []
read_content done_mark = []

abbrev pub read_text : List Message → List ℕ
read_text [] = []
read_text (m ∷ ms) = read_content m ++ read_text ms

-- What the worker says.
abbrev pub said : List StreamCall → List ℕ
said [] = []
said (on_token token is_last stats ∷ cs) = token ++ said cs
said (on_error message status ∷ cs) = said cs
said (wake ∷ cs) = said cs

-- Tokens that are not the last one, and time that passes.
abbrev pub IsOngoing : StreamCall → Type 0
IsOngoing (on_token token is_last stats) = is_last ≡ false
IsOngoing (on_error message status) = ⊥
IsOngoing wake = Unit

-- A peer that stays and takes all that is written.
abbrev pub reliable : Sink
reliable = record { is_writable = λ n. true; write = λ n. true }

read_content-chunk :
    (text : List ℕ) (is_last : Bool) (stats : Option InferenceStats)
    → read_content (chunk (json_escape text) is_last stats) ≡ text
read_content-chunk text is_last stats = ap value_read (parse_string-json_escape text [])

pub read_text-append :
    (ms : List Message) (m : Message) → read_text (ms ++ m ∷ []) ≡ read_text ms ++ read_content m
read_text-append [] m = append-nil (read_content m)
read_text-append (n ∷ ms) m =
    ap (λ text. read_content n ++ text) (read_text-append ms m)
    ∙ sym (append_assoc (read_content n) (read_text ms) (read_content m))

-- All that was said is sent or kept back.
pub record Delivers (st : StreamState) (heard : List ℕ) : Type 0 where
  pub stays : st.cancelled ≡ false
  pub text : read_text st.sent ++ st.incomplete_utf8 ≡ heard

read_text-chunk :
    (ms : List Message) (text : List ℕ) (is_last : Bool) (stats : Option InferenceStats)
    → read_text (ms ++ chunk (json_escape text) is_last stats ∷ []) ≡ read_text ms ++ text
read_text-chunk ms text is_last stats =
    read_text-append ms (chunk (json_escape text) is_last stats)
    ∙ ap (λ content. read_text ms ++ content) (read_content-chunk text is_last stats)

pub send_chunk-Delivers :
    (content before : List ℕ) (stats : Option InferenceStats) (st : StreamState)
    → st.cancelled ≡ false
    → read_text st.sent ≡ before
    → Delivers (send_chunk reliable content false stats st) (before ++ content)
unfolding send_chunk
send_chunk-Delivers content before stats st stays e =
    let n = complete_utf8_prefix_length content in
    let whole = take n content in
    let rest = drop n content in
    let sent = read_text-chunk st.sent whole false stats ∙ ap (λ text. text ++ whole) e in
    let all_of =
      ap (λ text. text ++ rest) sent
      ∙ append_assoc before whole rest
      ∙ ap (λ text. before ++ text) (take-append-drop n content) in
    elim (Bool-cases (is_empty (drop n content))) [
      | inl f ↦ rw f (record { stays = stays; text = all_of })
      | inr f ↦ rw f (record { stays = stays; text = all_of })
    ]

-- All that was said is sent, and the stream is at its end.
pub record Ends (st : StreamState) (heard : List ℕ) : Type 0 where
  pub stays : st.cancelled ≡ false
  pub done : st.done ≡ true
  pub text : read_text st.sent ≡ heard

pub send_chunk-Ends :
    (content before : List ℕ) (stats : Option InferenceStats) (st : StreamState)
    → st.cancelled ≡ false
    → read_text st.sent ≡ before
    → Ends (send_chunk reliable content true stats st) (before ++ content)
unfolding send_chunk finish
send_chunk-Ends content before stats st stays e =
    let n = complete_utf8_prefix_length content in
    let whole = take n content in
    let rest = drop n content in
    let marked = λ (text : List ℕ).
      read_text-append (st.sent ++ chunk (json_escape text) true stats ∷ []) done_mark
      ∙ append-nil (read_text (st.sent ++ chunk (json_escape text) true stats ∷ []))
      ∙ read_text-chunk st.sent text true stats
      ∙ ap (λ ms. ms ++ text) e in
    elim (Bool-cases (is_empty (drop n content))) [
      | inl f ↦
          let none_left = length-nil rest (is_empty-length (drop n content) f) in
          let all_of : whole ≡ content =
            sym (append-nil whole)
            ∙ ap (λ xs. whole ++ xs) (sym none_left)
            ∙ take-append-drop n content in
          rw f (record {
            stays = stays;
            done = refl;
            text = marked whole ∙ ap (λ xs. before ++ xs) all_of;
          })
      | inr f ↦
          let all_of = take-append-drop n content in
          rw f (record {
            stays = stays;
            done = refl;
            text = marked (whole ++ rest) ∙ ap (λ xs. before ++ xs) all_of;
          })
    ]
