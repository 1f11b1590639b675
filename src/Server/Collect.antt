-- ===== src/Server/Collect.antt =====
-- The answer in one piece of src/http_server.cpp: `NonStreamState`, the callbacks of the request, and
-- the response.
use radixforge.Common.{
  ℕ, Bool, true, false, List, [], ◌∷◌, ◌++◌, Option, none, some, ◌==◌, if◌then◌else◌,
}
use radixforge.Worker.State.{InferenceStats, ErrorMessage}
use radixforge.Server.Stream.{ErrorType, error_type, StreamCall, on_token, on_error, wake}

pub record NonStreamState : Type 0 where
  pub full_response : List ℕ
  pub stats : Option InferenceStats
  pub cancelled : Bool
  pub done : Bool
  pub failure : Option (ErrorMessage × ℕ)

abbrev pub new_collection : NonStreamState
new_collection = record {
  full_response = [];
  stats = none;
  cancelled = false;
  done = false;
  failure = none;
}

abbrev pub or_else {ℓ} : {A : Type ℓ} → Option A → Option A → Option A
or_else none o = o
or_else (some a) o = some a

unfoldable pub collect_token :
    List ℕ → Bool → Option InferenceStats → NonStreamState → NonStreamState
collect_token token is_last stats st0 =
    let st = record st0 { full_response = st0.full_response ++ token } in
    if st0.cancelled
    then st0
    else if is_last
    then record st { stats = or_else stats st.stats; done = true }
    else st

-- `error_status` and `error_message`.
unfoldable pub collect_error : ErrorMessage → ℕ → NonStreamState → NonStreamState
collect_error message status st =
    if st.cancelled then st else record st { failure = some (message, status); done = true }

-- The same calls as of a stream; the handler itself only waits.
unfoldable pub collect_step : NonStreamState → StreamCall → NonStreamState
unfolding collect_token collect_error
collect_step st (on_token token is_last stats) = collect_token token is_last stats st
collect_step st (on_error message status) = collect_error message status st
collect_step st wake = st

unfoldable pub collect_run : NonStreamState → List StreamCall → NonStreamState
unfolding collect_step
collect_run st [] = st
collect_run st (c ∷ cs) = collect_run (collect_step st c) cs

-- `res` of the handler: the status and what the body is made of.
pub data Response : Type 0 where
  completion : List ℕ → Option InferenceStats → Response
  failed : ErrorMessage → ErrorType → ℕ → Response
  timed_out : Response

abbrev pub with_failure : Option (ErrorMessage × ℕ) → Response → Response
with_failure none r = r
with_failure (some (message, status)) r =
    if status == 0 then r else failed message (error_type status) status

-- Behind the wait, with whether it ended by a timeout.
unfoldable pub respond : NonStreamState → NonStreamState × Response
respond st =
    if st.done
    then (st, with_failure st.failure (completion st.full_response st.stats))
    else (record st { cancelled = true }, timed_out)
