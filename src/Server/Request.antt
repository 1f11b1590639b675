-- ===== src/Server/Request.antt =====
-- `parse_request_body` of src/openai_api.cpp, and what the completion handler of
-- src/http_server.cpp does with a body.
--
-- `as_number` is what `std::stod` has made of a literal; a `double` is taken apart into what the
-- tests ask of it.
pub mod Members
pub mod Reads
pub mod Validation
use radixforge.Common.{
  ℕ, suc, ◌+◌, Bool, true, false, not, ◌&&◌, ◌||◌, List, [], ◌∷◌, Option, none, some, ltb,
  if◌then◌else◌, is_empty,
}
use radixforge.Json.Reading.{StodError, JsonError, Result, ok, err}
use radixforge.Json.Value.{
  JsonValue, null, boolean, number, string, array, object, Items, no_items, item, Fields, no_fields,
  field, same_bytes,
}
use radixforge.Json.Access.{
  is_array, is_string, is_number, find, or_null, is_some, at_key, contains_key, as_string, as_bool,
  as_literal,
}
use radixforge.Json.Parse.{parse}
use radixforge.Worker.State.{ChatMessage}

-- `magnitude` is the whole part of the absolute value.
pub record Double : Type 0 where
  pub finite : Bool
  pub negative : Bool
  pub magnitude : ℕ
  pub whole : Bool

-- The keys, and `user`.
abbrev pub key_messages : List ℕ
key_messages = 109 ∷ 101 ∷ 115 ∷ 115 ∷ 97 ∷ 103 ∷ 101 ∷ 115 ∷ []

abbrev pub key_role : List ℕ
key_role = 114 ∷ 111 ∷ 108 ∷ 101 ∷ []

abbrev pub key_content : List ℕ
key_content = 99 ∷ 111 ∷ 110 ∷ 116 ∷ 101 ∷ 110 ∷ 116 ∷ []

abbrev pub key_prompt : List ℕ
key_prompt = 112 ∷ 114 ∷ 111 ∷ 109 ∷ 112 ∷ 116 ∷ []

abbrev pub key_max_tokens : List ℕ
key_max_tokens = 109 ∷ 97 ∷ 120 ∷ 95 ∷ 116 ∷ 111 ∷ 107 ∷ 101 ∷ 110 ∷ 115 ∷ []

abbrev pub key_temperature : List ℕ
key_temperature = 116 ∷ 101 ∷ 109 ∷ 112 ∷ 101 ∷ 114 ∷ 97 ∷ 116 ∷ 117 ∷ 114 ∷ 101 ∷ []

abbrev pub key_top_p : List ℕ
key_top_p = 116 ∷ 111 ∷ 112 ∷ 95 ∷ 112 ∷ []

abbrev pub key_stream : List ℕ
key_stream = 115 ∷ 116 ∷ 114 ∷ 101 ∷ 97 ∷ 109 ∷ []

abbrev pub user : List ℕ
user = 117 ∷ 115 ∷ 101 ∷ 114 ∷ []

-- The fields of `InferenceRequest` that the body sets; `temperature` and `top_p` are the literals of the
-- body, or `none` for those of the configuration.
pub record ParsedRequest : Type 0 where
  pub prompt : List ℕ
  pub messages : List ChatMessage
  pub max_tokens : ℕ
  pub temperature : Option (List ℕ)
  pub top_p : Option (List ℕ)
  pub stream : Bool

-- The exceptions of `parse_request_body`.
pub data RequestError : Type 0 where
  not_json : JsonError → RequestError
  max_tokens_not_a_number : RequestError
  max_tokens_not_an_int32 : RequestError

abbrev pub chat_message : JsonValue → ChatMessage
chat_message v = record {
  role = if contains_key key_role v then as_string (at_key key_role v) else user;
  content = if contains_key key_content v then as_string (at_key key_content v) else [];
}

unfoldable pub chat_messages : Items → List ChatMessage
chat_messages no_items = []
chat_messages (item v vs) = chat_message v ∷ chat_messages vs

abbrev pub items_of : JsonValue → Items
items_of (array xs) = xs
items_of _ = no_items

abbrev pub max_int32 : ℕ
max_int32 = 2147483647

-- A number above the bound has a magnitude above it or the bound and a fraction, which is not whole.
unfoldable pub check_max_tokens : Double → Option ℕ
check_max_tokens d =
    if not d.finite || d.negative || ltb max_int32 d.magnitude || not d.whole
    then none
    else some d.magnitude

pub data Validated {ℓ} (A : Type ℓ) : Type ℓ where
  valid : A → Validated A
  invalid : RequestError → Validated A

abbrev pub from_option {ℓ} : {A : Type ℓ} → Option A → RequestError → Validated A
from_option none e = invalid e
from_option (some a) e = valid a

unfoldable pub read_max_tokens : (List ℕ → Double) → ℕ → JsonValue → Validated ℕ
unfolding contains_key at_key check_max_tokens
read_max_tokens as_number default body =
    let v = at_key key_max_tokens body in
    if contains_key key_max_tokens body
    then (if is_number v
        then from_option (check_max_tokens (as_number (as_literal v))) max_tokens_not_an_int32
        else invalid max_tokens_not_a_number)
    else valid default

abbrev pub literal_of : List ℕ → JsonValue → Option (List ℕ)
literal_of key body =
    if contains_key key body && is_number (at_key key body)
    then some (as_literal (at_key key body))
    else none

-- With the exception of `max_tokens` already looked at, and `n` its value.
unfoldable pub fill_request : JsonValue → ℕ → ParsedRequest
unfolding contains_key at_key chat_messages
fill_request body n =
    let chat = contains_key key_messages body && is_array (at_key key_messages body) in
    let plain = contains_key key_prompt body && is_string (at_key key_prompt body) in
    record {
      prompt = if chat then [] else (if plain then as_string (at_key key_prompt body) else []);
      messages = if chat then chat_messages (items_of (at_key key_messages body)) else [];
      max_tokens = n;
      temperature = literal_of key_temperature body;
      top_p = literal_of key_top_p body;
      stream = contains_key key_stream body && as_bool (at_key key_stream body);
    }

abbrev pub fill_if : JsonValue → Validated ℕ → Validated ParsedRequest
fill_if body (valid n) = valid (fill_request body n)
fill_if body (invalid e) = invalid e

abbrev pub parse_body : (List ℕ → Double) → ℕ → Result JsonValue → Validated ParsedRequest
parse_body as_number default (err e) = invalid (not_json e)
parse_body as_number default (ok body) = fill_if body (read_max_tokens as_number default body)

-- `default` is `config.max_tokens`; `stod_error` is the parameter of the parser.
unfoldable pub parse_request_body :
    (List ℕ → Option StodError) → (List ℕ → Double) → ℕ → List ℕ → Validated ParsedRequest
unfolding fill_request read_max_tokens parse
parse_request_body stod_error as_number default text =
    parse_body as_number default (parse stod_error text)

-- What the handler does: it rejects with a status, or puts the request in the worker's queue and answers
-- it as a stream or in one piece.
pub data Admission : Type 0 where
  draining : Admission
  bad_request : RequestError → Admission
  nothing_to_answer : Admission
  streamed : ParsedRequest → Admission
  collected : ParsedRequest → Admission

unfoldable pub admit_parsed : Validated ParsedRequest → Admission
admit_parsed (invalid e) = bad_request e
admit_parsed (valid req) =
    if is_empty req.prompt && is_empty req.messages
    then nothing_to_answer
    else if req.stream
    then streamed req
    else collected req

unfoldable pub handle_completion :
    (List ℕ → Option StodError) → (List ℕ → Double) → ℕ → Bool → List ℕ → Admission
unfolding admit_parsed parse_request_body
handle_completion stod_error as_number default accepting text =
    if accepting
    then admit_parsed (parse_request_body stod_error as_number default text)
    else draining

-- The status that `res` is given, if the handler gives one.
abbrev pub status_of : Admission → Option ℕ
status_of draining = some 503
status_of (bad_request e) = some 400
status_of nothing_to_answer = some 400
status_of (streamed req) = none
status_of (collected req) = none
