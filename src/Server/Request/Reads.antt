-- ===== src/Server/Request/Reads.antt =====
-- What `parse_request_body` of src/openai_api.cpp makes of the members of a body.
use radixforge.Common.{
  ℕ, ◌≤◌, ◌≡◌, refl, true, false, not, ◌&&◌, ◌||◌, List, [], ◌∷◌, Option, none, some, arith, ltb,
  Bool-cases, inl, inr, if◌then◌else◌,
}
use radixforge.Json.Value.{
  JsonValue, null, boolean, number, string, array, object, Items, no_items, item,
}
use radixforge.Json.Access.{
  is_array, is_string, is_number, or_null, is_some, at_key, contains_key, as_string, as_bool,
  as_literal,
}
use radixforge.Worker.State.{ChatMessage}
use radixforge.Server.Request.{
  Double, key_messages, key_role, key_content, key_prompt, key_max_tokens, key_temperature,
  key_top_p, key_stream, user, ParsedRequest, RequestError, not_json, max_tokens_not_a_number,
  max_tokens_not_an_int32, chat_messages, items_of, max_int32, check_max_tokens, Validated, valid,
  invalid, from_option, read_max_tokens, literal_of, fill_request,
}
use radixforge.Server.Request.Members.{
  member, text_in, role_in, literal_in, flag_in, by_member, text_in-as_string, role_in-as_string,
  text_in-is_string, literal_in-is_number, flag_in-as_bool,
}

-- Each element of the array is a message, in order.
abbrev pub AreMessages : Items → List ChatMessage → Type 0
AreMessages no_items [] = Unit
AreMessages (item v vs) (m ∷ ms) =
    (m.role ≡ role_in (member key_role v))
    × (m.content ≡ text_in (member key_content v))
    × AreMessages vs ms
AreMessages _ _ = ⊥

-- An array of messages goes before a prompt.
abbrev pub IsAsked : Option JsonValue → List ℕ → List ℕ → List ChatMessage → Type 0
IsAsked (some (array xs)) text prompt messages = (prompt ≡ []) × AreMessages xs messages
IsAsked _ text prompt messages = (prompt ≡ text) × (messages ≡ [])

abbrev pub IsInt32 : Double → Type 0
IsInt32 d = (d.finite ≡ true) × (d.negative ≡ false) × (d.whole ≡ true) × (d.magnitude ≤ max_int32)

module _ (as_number : List ℕ → Double) (default : ℕ) where
  -- The bound for the answer that the member gives, or the default.
  abbrev pub IsLimit : Option JsonValue → ℕ → Type 0
  IsLimit none n = n ≡ default
  IsLimit (some (number l)) n = IsInt32 (as_number l) × (n ≡ (as_number l).magnitude)
  IsLimit _ n = ⊥

  -- Why the member is refused.
  abbrev pub IsWrongLimit : RequestError → Option JsonValue → Type 0
  IsWrongLimit (not_json e) o = ⊥
  IsWrongLimit max_tokens_not_a_number none = ⊥
  IsWrongLimit max_tokens_not_a_number (some v) = is_number v ≡ false
  IsWrongLimit max_tokens_not_an_int32 (some (number l)) = ¬ IsInt32 (as_number l)
  IsWrongLimit max_tokens_not_an_int32 _ = ⊥

  -- What the request must hold for the body.
  abbrev pub Reads : JsonValue → ParsedRequest → Type 0
  Reads body req =
      IsAsked (member key_messages body) (text_in (member key_prompt body)) req.prompt req.messages
      × IsLimit (member key_max_tokens body) req.max_tokens
      × (req.temperature ≡ literal_in (member key_temperature body))
      × (req.top_p ≡ literal_in (member key_top_p body))
      × (req.stream ≡ flag_in (member key_stream body))

chat_messages-AreMessages : (xs : Items) → AreMessages xs (chat_messages xs)
unfolding chat_messages
chat_messages-AreMessages no_items = tt
chat_messages-AreMessages (item v vs) = (
  by_member (λ b u. (if b then as_string u else user) ≡ role_in (member key_role v)) key_role v
      (role_in-as_string (member key_role v)),
  by_member (λ b u. (if b then as_string u else []) ≡ text_in (member key_content v)) key_content v
      (text_in-as_string (member key_content v)),
  chat_messages-AreMessages vs,
)

IsAsked-is_array :
    (o : Option JsonValue) (plain text : List ℕ)
    → plain ≡ text
    → IsAsked o text
        (if is_some o && is_array (or_null o) then [] else plain)
        (if is_some o && is_array (or_null o) then chat_messages (items_of (or_null o)) else [])
IsAsked-is_array none plain text e = (e, refl)
IsAsked-is_array (some null) plain text e = (e, refl)
IsAsked-is_array (some (boolean b)) plain text e = (e, refl)
IsAsked-is_array (some (number l)) plain text e = (e, refl)
IsAsked-is_array (some (string s)) plain text e = (e, refl)
IsAsked-is_array (some (array xs)) plain text e = (refl, chat_messages-AreMessages xs)
IsAsked-is_array (some (object fs)) plain text e = (e, refl)

module _ (as_number : List ℕ → Double) (default : ℕ) where
  abbrev pub IsRead : Option JsonValue → Validated ℕ → Type 0
  IsRead o (valid n) = IsLimit as_number default o n
  IsRead o (invalid e) = IsWrongLimit as_number default e o

  check_max_tokens-IsRead :
      (l : List ℕ)
      → IsRead
          (some (number l))
          (from_option (check_max_tokens (as_number l)) max_tokens_not_an_int32)
  unfolding check_max_tokens
  check_max_tokens-IsRead l =
      let d = as_number l in
      elim (Bool-cases (not d.finite || d.negative || ltb max_int32 d.magnitude || not d.whole)) [
        | inl e ↦ rw e (λ h. ground (arith, e, h))
        | inr e ↦ rw e ((ground arith, ground arith, ground arith, ground arith), refl)
      ]

  IsRead-is_number :
      (o : Option JsonValue)
      → IsRead o (
          if is_some o
          then (if is_number (or_null o)
              then from_option
                  (check_max_tokens (as_number (as_literal (or_null o))))
                  max_tokens_not_an_int32
              else invalid max_tokens_not_a_number)
          else valid default)
  IsRead-is_number none = refl
  IsRead-is_number (some null) = refl
  IsRead-is_number (some (boolean b)) = refl
  IsRead-is_number (some (number l)) = check_max_tokens-IsRead l
  IsRead-is_number (some (string s)) = refl
  IsRead-is_number (some (array xs)) = refl
  IsRead-is_number (some (object fs)) = refl

  pub read_max_tokens-IsRead :
      (body : JsonValue)
      → IsRead (member key_max_tokens body) (read_max_tokens as_number default body)
  unfolding read_max_tokens
  read_max_tokens-IsRead body =
      by_member
        (λ b v. IsRead (member key_max_tokens body) (
          if b
          then (if is_number v
              then from_option (check_max_tokens (as_number (as_literal v))) max_tokens_not_an_int32
              else invalid max_tokens_not_a_number)
          else valid default))
        key_max_tokens body (IsRead-is_number (member key_max_tokens body))

  literal_of-literal_in :
      (key : List ℕ) (body : JsonValue) → literal_of key body ≡ literal_in (member key body)
  literal_of-literal_in key body =
      by_member
        (λ b v.
          (if b && is_number v then some (as_literal v) else none) ≡ literal_in (member key body))
        key body (literal_in-is_number (member key body))

  pub fill_request-Reads :
      (body : JsonValue) (n : ℕ)
      → IsLimit as_number default (member key_max_tokens body) n
      → Reads as_number default body (fill_request body n)
  unfolding fill_request
  fill_request-Reads body n limit =
      let o = member key_messages body in
      let text = text_in (member key_prompt body) in
      (
        by_member
            (λ b v.
              IsAsked o text
                (if b && is_array v
                  then []
                  else if contains_key key_prompt body && is_string (at_key key_prompt body)
                  then as_string (at_key key_prompt body)
                  else [])
                (if b && is_array v then chat_messages (items_of v) else []))
            key_messages body
            (IsAsked-is_array o _ text (
              by_member (λ b v. (if b && is_string v then as_string v else []) ≡ text) key_prompt
                body (text_in-is_string (member key_prompt body)))),
        limit,
        literal_of-literal_in key_temperature body,
        literal_of-literal_in key_top_p body,
        by_member (λ b v. b && as_bool v ≡ flag_in (member key_stream body)) key_stream body
            (flag_in-as_bool (member key_stream body)),
      )
