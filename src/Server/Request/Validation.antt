-- ===== src/Server/Request/Validation.antt =====
-- What src/http_server.cpp lets into the worker's queue, against the members of the body.
use radixforge.Common.{
  ℕ, ◌≤◌, ◌≡◌, refl, Bool, true, false, ◌&&◌, List, [], Option, none, some, arith, is_empty,
  Bool-cases, inl, inr, length-nil, is_empty-length, if◌then◌else◌,
}
use radixforge.Json.Reading.{StodError, Result, ok, err}
use radixforge.Json.Value.{JsonValue, null, boolean, number, string, array, object}
use radixforge.Json.Parse.{parse}
use radixforge.Json.Progress.{IsProper}
use radixforge.Json.Limits.{IsBounded, parse-IsBounded}
use radixforge.Server.Request.{
  Double, key_max_tokens, ParsedRequest, not_json, max_tokens_not_a_number, max_tokens_not_an_int32,
  max_int32, Validated, valid, invalid, read_max_tokens, fill_request, fill_if, parse_body,
  parse_request_body, Admission, draining, bad_request, nothing_to_answer, streamed, collected,
  admit_parsed, handle_completion,
}
use radixforge.Server.Request.Members.{member}
use radixforge.Server.Request.Reads.{
  IsLimit, IsWrongLimit, Reads, IsRead, read_max_tokens-IsRead, fill_request-Reads,
}

-- A request that the worker may be given.
abbrev pub IsServable : ParsedRequest → Type 0
IsServable req =
    (req.max_tokens ≤ max_int32) × (is_empty req.prompt && is_empty req.messages ≡ false)

-- Whether the outcome is the one for the parsed body, where the server accepts.
module _ (as_number : List ℕ → Double) (default : ℕ) (parsed : Result JsonValue) where
  abbrev pub IsOutcome : Admission → Type 0
  IsOutcome draining = ⊥
  IsOutcome (bad_request (not_json e)) = (parsed ≡ err e) × IsProper e
  IsOutcome (bad_request e) =
      (body : JsonValue) × (parsed ≡ ok body)
      × IsWrongLimit as_number default e (member key_max_tokens body)
  IsOutcome nothing_to_answer =
      (body : JsonValue) × (req : ParsedRequest) × (parsed ≡ ok body)
      × Reads as_number default body req
      × (req.prompt ≡ [])
      × (req.messages ≡ [])
  IsOutcome (streamed req) =
      (body : JsonValue) × (parsed ≡ ok body)
      × Reads as_number default body req
      × IsServable req
      × (req.stream ≡ true)
  IsOutcome (collected req) =
      (body : JsonValue) × (parsed ≡ ok body)
      × Reads as_number default body req
      × IsServable req
      × (req.stream ≡ false)

  abbrev pub IsAdmission : Bool → Admission → Type 0
  IsAdmission false outcome = outcome ≡ draining
  IsAdmission true outcome = IsOutcome outcome

module _ (as_number : List ℕ → Double) (default : ℕ) where
  IsLimit-max_int32 :
      (o : Option JsonValue) (n : ℕ)
      → default ≤ max_int32
      → IsLimit as_number default o n
      → n ≤ max_int32
  IsLimit-max_int32 none n h limit = omega (arith, h, limit)
  IsLimit-max_int32 (some (number l)) n h limit = omega (arith, limit.1, limit.0.3)
  IsLimit-max_int32 (some null) n h limit = absurd limit
  IsLimit-max_int32 (some (boolean b)) n h limit = absurd limit
  IsLimit-max_int32 (some (string s)) n h limit = absurd limit
  IsLimit-max_int32 (some (array xs)) n h limit = absurd limit
  IsLimit-max_int32 (some (object fs)) n h limit = absurd limit

  by_stream-IsOutcome :
      (body : JsonValue) (req : ParsedRequest)
      → Reads as_number default body req
      → IsServable req
      → (b : Bool) → req.stream ≡ b
      → IsOutcome as_number default (ok body) (if b then streamed req else collected req)
  by_stream-IsOutcome body req reads servable true e = (body, refl, reads, servable, e)
  by_stream-IsOutcome body req reads servable false e = (body, refl, reads, servable, e)

  admit_parsed-IsOutcome :
      (body : JsonValue) (req : ParsedRequest)
      → Reads as_number default body req
      → req.max_tokens ≤ max_int32
      → IsOutcome as_number default (ok body) (admit_parsed (valid req))
  unfolding admit_parsed
  admit_parsed-IsOutcome body req reads h =
      elim (Bool-cases (is_empty req.prompt && is_empty req.messages)) [
        | inl e ↦ rw e (
          body,
          req,
          refl,
          reads,
          length-nil req.prompt (is_empty-length req.prompt (ground (arith, e))),
          length-nil req.messages (is_empty-length req.messages (ground (arith, e))),
        )
        | inr e ↦ rw e (by_stream-IsOutcome body req reads (h, e) req.stream refl)
      ]

  fill_if-IsOutcome :
      (body : JsonValue) (v : Validated ℕ)
      → default ≤ max_int32
      → IsRead as_number default (member key_max_tokens body) v
      → IsOutcome as_number default (ok body) (admit_parsed (fill_if body v))
  unfolding fill_request admit_parsed
  fill_if-IsOutcome body (valid n) h limit =
      admit_parsed-IsOutcome body (fill_request body n)
        (fill_request-Reads as_number default body n limit)
        (IsLimit-max_int32 (member key_max_tokens body) n h limit)
  fill_if-IsOutcome body (invalid max_tokens_not_a_number) h wrong = (body, refl, wrong)
  fill_if-IsOutcome body (invalid max_tokens_not_an_int32) h wrong = (body, refl, wrong)
  fill_if-IsOutcome body (invalid (not_json e)) h wrong = absurd wrong

  parse_body-IsOutcome :
      (parsed : Result JsonValue)
      → default ≤ max_int32
      → IsBounded parsed
      → IsOutcome as_number default parsed (admit_parsed (parse_body as_number default parsed))
  unfolding admit_parsed
  parse_body-IsOutcome (err e) h bounded = (refl, bounded)
  parse_body-IsOutcome (ok body) h bounded =
      fill_if-IsOutcome body (read_max_tokens as_number default body) h
        (read_max_tokens-IsRead as_number default body)

-- For any bytes and with a configured `max_tokens` of at most 2147483647: only a server that drains
-- refuses because of that. Else the bytes are refused with the exception of the parser; or the body
-- with an exception, where its `max_tokens` is no number or not an integer from 0 to 2147483647;
-- or for its emptiness, where what it asks for has neither a prompt nor messages; or the worker is
-- given a request that holds just what the members of the body say, with a prompt or messages and
-- with `max_tokens` at most 2147483647, to be answered as `stream` asks for.
pub handle_completion-IsAdmission :
    (stod_error : List ℕ → Option StodError) (as_number : List ℕ → Double) (default : ℕ)
    (accepting : Bool) (text : List ℕ)
    → default ≤ max_int32
    → IsAdmission as_number default
        (parse stod_error text)
        accepting
        (handle_completion stod_error as_number default accepting text)
unfolding handle_completion parse_request_body
handle_completion-IsAdmission stod_error as_number default false text h = refl
handle_completion-IsAdmission stod_error as_number default true text h =
    parse_body-IsOutcome as_number default (parse stod_error text) h
      (parse-IsBounded stod_error text)
