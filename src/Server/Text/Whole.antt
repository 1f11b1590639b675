-- ===== src/Server/Text/Whole.antt =====
-- The chunks of the streamed answer of src/http_server.cpp and the characters of its text.
use radixforge.Common.{
  ℕ, ◌+◌, ◌≡◌, inl, inr, refl, sym, ap, subst, ◌∙◌, false, ◌||◌, List, [], ◌∷◌, ◌++◌, Option,
  if_ind, if_not, take, drop, length, is_empty, append_assoc, All, All-append, Bool-cases,
}
use radixforge.Json.Escape.{json_escape}
use radixforge.Api.Utf8.{complete_utf8_prefix_length}
use radixforge.Api.Chunks.{IsCharacter, concat, complete_utf8_prefix_length-concat}
use radixforge.Api.Cut.{Cut, concat-Cut}
use radixforge.Worker.State.{InferenceStats}
use radixforge.Server.Stream.{
  Message, chunk, error_event, keep_alive, done_mark, StreamState, new_stream, send_chunk,
  stream_token, stream_wake, StreamCall, on_token, on_error, wake, stream_step, stream_run,
}
use radixforge.Server.Text.{read_content, read_content-chunk, said, IsOngoing, reliable}

-- The content of a chunk is whole characters.
abbrev pub IsWhole : Message → Type 0
IsWhole (chunk content is_last stats) =
    (cs : List (List ℕ)) × All IsCharacter cs
    × (read_content (chunk content is_last stats) ≡ concat cs)
IsWhole (error_event message type) = Unit
IsWhole keep_alive = Unit
IsWhole done_mark = Unit

take-length : (xs ys : List ℕ) → take (length xs) (xs ++ ys) ≡ xs
take-length [] ys = refl
take-length (x ∷ xs) ys = ap (◌∷◌ x) (take-length xs ys)

drop-length : (xs ys : List ℕ) → drop (length xs) (xs ++ ys) ≡ ys
drop-length [] ys = refl
drop-length (x ∷ xs) ys = drop-length xs ys

-- Between two calls: what is kept back begins the characters that are still to come.
record Sends (st : StreamState) (rest : List ℕ) : Type 0 where
  pub stays : st.cancelled ≡ false
  pub whole : All IsWhole st.sent
  pub later : List (List ℕ)
  pub characters : All IsCharacter later
  pub left : st.incomplete_utf8 ++ rest ≡ concat later

chunk-IsWhole :
    (text : List ℕ) (cs : List (List ℕ)) (stats : Option InferenceStats)
    → All IsCharacter cs
    → text ≡ concat cs
    → IsWhole (chunk (json_escape text) false stats)
chunk-IsWhole text cs stats h e = (cs, h, read_content-chunk text false stats ∙ e)

send_chunk-Sends :
    (content rest : List ℕ) (stats : Option InferenceStats) (st : StreamState)
    → st.cancelled ≡ false
    → All IsWhole st.sent
    → Cut content rest
    → Sends (send_chunk reliable content false stats st) rest
unfolding send_chunk
send_chunk-Sends content rest stats st stays sent c =
    let n = complete_utf8_prefix_length content in
    let counted : n ≡ length (concat c.whole) =
      ap (λ xs. complete_utf8_prefix_length xs) c.cut
      ∙ complete_utf8_prefix_length-concat c.whole c.part c.characters c.partial in
    let taken : take n content ≡ concat c.whole =
      ap (λ i. take i content) counted
      ∙ ap (λ xs. take (length (concat c.whole)) xs) c.cut
      ∙ take-length (concat c.whole) c.part in
    let dropped : drop n content ≡ c.part =
      ap (λ i. drop i content) counted
      ∙ ap (λ xs. drop (length (concat c.whole)) xs) c.cut
      ∙ drop-length (concat c.whole) c.part in
    let after : Sends
        (record st {
          incomplete_utf8 = drop n content;
          tried = st.tried + 1;
          sent = st.sent ++ chunk (json_escape (take n content)) false stats ∷ [];
        })
        rest =
      record {
        stays = stays;
        whole =
            All-append IsWhole st.sent _ sent
              (chunk-IsWhole (take n content) c.whole stats c.characters taken, tt);
        later = c.later;
        characters = c.later_characters;
        left = ap (λ xs. xs ++ rest) dropped ∙ c.left;
      } in
    elim (Bool-cases (is_empty (drop n content))) [ inl f ↦ rw f after | inr f ↦ rw f after ]

stream_run-Sends :
    (st : StreamState) (cs : List StreamCall) (more : List ℕ)
    → All IsOngoing cs
    → Sends st (said cs ++ more)
    → Sends (stream_run reliable st cs) more
unfolding stream_run stream_step stream_token stream_wake
stream_run-Sends st [] more h s = s
stream_run-Sends st (on_error message status ∷ cs) more h s = absurd (h.0)
stream_run-Sends st (wake ∷ cs) more h s =
    stream_run-Sends (stream_wake reliable st) cs more (h.1) (
      if_ind (λ x. Sends x (said cs ++ more)) (st.done || st.cancelled) _ _ s
        (record {
          stays = s.stays;
          whole = All-append IsWhole st.sent (keep_alive ∷ []) s.whole (tt, tt);
          later = s.later;
          characters = s.characters;
          left = s.left;
        }))
stream_run-Sends st (on_token token is_last stats ∷ cs) more h s =
    let content = st.incomplete_utf8 ++ token in
    let rest = said cs ++ more in
    let asked : StreamState = record st { asked = st.asked + 1 } in
    let all_of : content ++ rest ≡ concat s.later =
      append_assoc st.incomplete_utf8 token rest
      ∙ ap (λ xs. st.incomplete_utf8 ++ xs) (sym (append_assoc token (said cs) more))
      ∙ s.left in
    let sent =
      send_chunk-Sends content rest stats asked s.stays s.whole
        (concat-Cut s.later content rest s.characters all_of) in
    stream_run-Sends (stream_token reliable token is_last stats st) cs more (h.1) (
      if_not (λ x. Sends x rest) st.cancelled _ _ s.stays
        (subst (λ l. Sends (send_chunk reliable content l stats asked) rest) (sym (h.0)) sent))

-- If what the worker has said, with any text behind it, is a text of whole UTF-8 characters, then each
-- chunk that has been sent before the last token holds whole characters, however the tokens cut
-- them, as long as the peer takes all that is written.
pub stream_run-IsWhole :
    (cs : List StreamCall) (text : List (List ℕ)) (more : List ℕ)
    → All IsOngoing cs
    → All IsCharacter text
    → said cs ++ more ≡ concat text
    → All IsWhole (stream_run reliable new_stream cs).sent
stream_run-IsWhole cs text more h k e =
    (stream_run-Sends new_stream cs more h
      (record { stays = refl; whole = tt; later = text; characters = k; left = e })).whole
