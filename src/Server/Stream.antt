-- ===== src/Server/Stream.antt =====
-- The streamed answer of src/http_server.cpp: `StreamState`, the callbacks of the request, and what
-- the content provider does each time that it wakes up.
--
-- `sent` has what has been written to the sink, each message with the parts that vary; the content
-- of a chunk stands between two quotes of its JSON text.
use radixforge.Common.{
  ℕ, ◌+◌, Bool, true, false, not, ◌&&◌, ◌||◌, List, [], ◌∷◌, ◌++◌, Option, ◌==◌, if◌then◌else◌,
  take, drop, is_empty,
}
use radixforge.Api.Utf8.{complete_utf8_prefix_length}
use radixforge.Json.Escape.{json_escape}
use radixforge.Worker.State.{InferenceStats, ErrorMessage}

pub data ErrorType : Type 0 where
  invalid_request_error : ErrorType
  server_error : ErrorType

pub data Message : Type 0 where
  chunk : List ℕ → Bool → Option InferenceStats → Message
  error_event : ErrorMessage → ErrorType → Message
  keep_alive : Message
  done_mark : Message

-- What `is_writable` and `write` of the sink answer, by the number of the call.
pub record Sink : Type 0 where
  pub is_writable : ℕ → Bool
  pub write : ℕ → Bool

pub record StreamState : Type 0 where
  pub cancelled : Bool
  pub done : Bool
  pub incomplete_utf8 : List ℕ
  pub sent : List Message
  pub asked : ℕ
  pub tried : ℕ

abbrev pub new_stream : StreamState
new_stream = record {
  cancelled = false;
  done = false;
  incomplete_utf8 = [];
  sent = [];
  asked = 0;
  tried = 0;
}

abbrev pub ask : Sink → StreamState → StreamState × Bool
ask k st = (record st { asked = st.asked + 1 }, k.is_writable st.asked)

abbrev pub write : Sink → Message → StreamState → StreamState × Bool
write k m st0 =
    let st = record st0 { tried = st0.tried + 1 } in
    if k.write st0.tried then (record st { sent = st.sent ++ m ∷ [] }, true) else (st, false)

abbrev pub hang_up : StreamState → StreamState
hang_up st = record st { cancelled = true; done = true }

-- The end of the stream, which is done whether or not it can be written.
unfoldable pub finish : Sink → StreamState → StreamState
finish k st0 =
    let (st, wrote_done) = write k done_mark st0 in
    if wrote_done then record st { done = true } else hang_up st

-- From the text that has arrived to what is kept back for the next chunk.
unfoldable pub send_chunk : Sink → List ℕ → Bool → Option InferenceStats → StreamState → StreamState
unfolding finish complete_utf8_prefix_length json_escape
send_chunk k content is_last stats st0 =
    let complete_length = complete_utf8_prefix_length content in
    let rest = drop complete_length content in
    let flush = not (is_empty rest) && is_last in
    let whole = take complete_length content in
    let text = if flush then whole ++ rest else whole in
    let kept = record st0 { incomplete_utf8 = if flush then [] else rest } in
    let (st, wrote_chunk) = write k (chunk (json_escape text) is_last stats) kept in
    if wrote_chunk then (if is_last then finish k st else st) else hang_up st

unfoldable pub stream_token :
    Sink → List ℕ → Bool → Option InferenceStats → StreamState → StreamState
unfolding send_chunk
stream_token k token is_last stats st0 =
    let (st, writable) = ask k st0 in
    if st0.cancelled
    then st0
    else if writable
    then send_chunk k (st.incomplete_utf8 ++ token) is_last stats st
    else hang_up st

-- The type of an error by its status.
abbrev pub error_type : ℕ → ErrorType
error_type status = if status == 400 then invalid_request_error else server_error

unfoldable pub stream_error : Sink → ErrorMessage → ℕ → StreamState → StreamState
stream_error k message status st0 =
    let (st1, writable) = ask k st0 in
    let (st2, wrote_event) = write k (error_event message (error_type status)) st1 in
    let (st3, wrote_done) = write k done_mark st2 in
    if st0.cancelled
    then st0
    else if writable
    then (if wrote_event
        then (if wrote_done then record st3 { done = true } else hang_up st3)
        else hang_up st2)
    else hang_up st1

-- The body of the provider's loop, where two seconds have passed and the answer is not done. A provider
-- that has cancelled the request is not called again.
unfoldable pub stream_wake : Sink → StreamState → StreamState
stream_wake k st0 =
    let (st1, writable) = ask k st0 in
    let (st2, wrote) = write k keep_alive st1 in
    if st0.done || st0.cancelled
    then st0
    else if writable
    then (if wrote then st2 else record st2 { cancelled = true })
    else record st1 { cancelled = true }

pub data StreamCall : Type 0 where
  on_token : List ℕ → Bool → Option InferenceStats → StreamCall
  on_error : ErrorMessage → ℕ → StreamCall
  wake : StreamCall

unfoldable pub stream_step : Sink → StreamState → StreamCall → StreamState
unfolding stream_token stream_error stream_wake
stream_step k st (on_token token is_last stats) = stream_token k token is_last stats st
stream_step k st (on_error message status) = stream_error k message status st
stream_step k st wake = stream_wake k st

unfoldable pub stream_run : Sink → StreamState → List StreamCall → StreamState
unfolding stream_step
stream_run k st [] = st
stream_run k st (c ∷ cs) = stream_run k (stream_step k st c) cs
