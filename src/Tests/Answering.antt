-- ===== src/Tests/Answering.antt =====
-- Runs of the completion handler on small inputs, and its theorems at inputs that meet their hypotheses.
use radixforge.Common.{ℕ, ◌≡◌, refl, true, false, List, [], ◌∷◌, Option, none, arith, All}
use radixforge.Json.Reading.{StodError}
use radixforge.Json.Parse.{parse}
use radixforge.Api.Utf8.{walk_back, cut_at_lead, expected, complete_utf8_prefix_length}
use radixforge.Json.Escape.{json_escape, escape_byte, hex_digit}
use radixforge.Server.Stream.{
  chunk, keep_alive, StreamCall, on_token, wake, new_stream, finish, send_chunk, stream_token,
  stream_wake, stream_step, stream_run,
}
use radixforge.Server.Collect.{new_collection, completion, respond, collect_run}
use radixforge.Server.Text.{read_text, reliable}
use radixforge.Server.Text.Run.{ended}
use radixforge.Server.Text.Agrees.{stream_run-respond}
use radixforge.Server.Text.Whole.{IsWhole, stream_run-IsWhole}
use radixforge.Server.Request.{
  Double, max_tokens_not_a_number, bad_request, nothing_to_answer, collected, handle_completion,
}
use radixforge.Server.Request.Validation.{IsAdmission, handle_completion-IsAdmission}

-- `aé`, with the two bytes of `é` in two tokens.
abbrev cut_character : List StreamCall
cut_character = on_token (97 ∷ 195 ∷ []) false none ∷ wake ∷ on_token (169 ∷ []) false none ∷ []

cut_character-sent :
    (stream_run reliable new_stream cut_character).sent
    ≡ chunk (97 ∷ []) false none ∷ keep_alive ∷ chunk (195 ∷ 169 ∷ []) false none ∷ []
unfolding stream_run stream_step stream_token stream_wake send_chunk finish walk_back cut_at_lead
    expected complete_utf8_prefix_length json_escape escape_byte hex_digit
cut_character-sent = refl

stream_run-IsWhole_example : All IsWhole (stream_run reliable new_stream cut_character).sent
stream_run-IsWhole_example =
    stream_run-IsWhole cut_character ((97 ∷ []) ∷ (195 ∷ 169 ∷ []) ∷ (33 ∷ []) ∷ []) (33 ∷ [])
      (refl, (tt, (refl, tt)))
      ((tt, ground arith), (((ground arith, tt), ground arith), ((tt, ground arith), tt))) refl

stream_run-respond_example :
    let calls = ended cut_character (34 ∷ []) none in
    let st = stream_run reliable new_stream calls in
    (st.done ≡ true)
    × (read_text st.sent ≡ 97 ∷ 195 ∷ 169 ∷ 34 ∷ [])
    × ((respond (collect_run new_collection calls)).1 ≡ completion (read_text st.sent) none)
stream_run-respond_example =
    stream_run-respond cut_character (34 ∷ []) none (refl, (tt, (refl, tt)))

-- Every number is 7.
abbrev seven : List ℕ → Double
seven literal = record { finite = true; negative = false; magnitude = 7; whole = true }

abbrev no_failure : List ℕ → Option StodError
no_failure literal = none

-- `{"prompt":"a"}`.
abbrev prompt_body : List ℕ
prompt_body = 123 ∷ 34 ∷ 112 ∷ 114 ∷ 111 ∷ 109 ∷ 112 ∷ 116 ∷ 34 ∷ 58 ∷ 34 ∷ 97 ∷ 34 ∷ 125 ∷ []

handle_completion-IsAdmission_example :
    IsAdmission seven 4096
      (parse no_failure prompt_body)
      true
      (handle_completion no_failure seven 4096 true prompt_body)
handle_completion-IsAdmission_example =
    handle_completion-IsAdmission no_failure seven 4096 true prompt_body (omega arith)

prompt-collected :
    handle_completion no_failure seven 4096 true prompt_body
    ≡ collected (record {
      prompt = 97 ∷ [];
      messages = [];
      max_tokens = 4096;
      temperature = none;
      top_p = none;
      stream = false;
    })
unfolding handle_completion parse
prompt-collected = refl

-- `{}` asks for nothing, and a limit of `true` is no number.
empty-refused : handle_completion no_failure seven 4096 true (123 ∷ 125 ∷ []) ≡ nothing_to_answer
unfolding handle_completion parse
empty-refused = refl

abbrev limit_body : List ℕ
limit_body =
    123 ∷ 34 ∷ 109 ∷ 97 ∷ 120 ∷ 95 ∷ 116 ∷ 111 ∷ 107 ∷ 101 ∷ 110 ∷ 115 ∷ 34 ∷ 58 ∷ 116 ∷ 114 ∷ 117
    ∷ 101 ∷ 125 ∷ []

limit-refused :
    handle_completion no_failure seven 4096 true limit_body ≡ bad_request max_tokens_not_a_number
unfolding handle_completion parse
limit-refused = refl
