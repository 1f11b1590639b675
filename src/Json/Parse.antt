-- ===== src/Json/Parse.antt =====
-- `Parser::parse` of include/radixforge/json_minimal.h, with values, arrays and objects.
use radixforge.Common.{
  ℕ, zero, suc, ◌+◌, ◌*◌, Option, List, [], ◌∷◌, ◌==◌, ◌&&◌, ◌||◌, ltb, leb, if◌then◌else◌, length,
}
use radixforge.Json.Reading.{
  StodError, JsonError, Result, ok, err, ◌>>=◌, skip_ws, expect, unexpected_trailing_data,
  nesting_limit_exceeded, unexpected_end_of_input, invalid_value, expected_object_key,
  unterminated_object, expected_comma_or_brace, unterminated_array, expected_comma_or_bracket,
  out_of_fuel,
}
use radixforge.Json.Strings.{parse_string}
use radixforge.Json.Value.{
  JsonValue, string, array, object, Items, no_items, Fields, no_fields, push_back, emplace,
}
use radixforge.Json.Scalars.{parse_number, parse_bool, parse_null}

abbrev pub max_depth : ℕ
max_depth = 64

-- What the rest of a loop does with the byte that is next: `close` ends it, a comma goes on.
abbrev pub separator {ℓ} :
    {A : Type ℓ}
    → ℕ
    → (List ℕ → Result A)
    → (List ℕ → Result A)
    → JsonError
    → JsonError
    → List ℕ
    → Result A
separator close done more unterminated unexpected [] = err unterminated
separator close done more unterminated unexpected (c ∷ cs) =
    if c == close then done cs else if c == 44 then more cs else err unexpected

-- `}` or `]` at once behind the opening bracket and white space, or the rounds of the loop.
abbrev pub bracketed {ℓ} :
    {A : Type ℓ} → ℕ → A → (List ℕ → Result (A × List ℕ)) → List ℕ → Result (A × List ℕ)
bracketed close empty rounds [] = rounds []
bracketed close empty rounds (c ∷ cs) = if c == close then ok (empty, cs) else rounds (c ∷ cs)

-- A key, which has to start with a quote.
unfoldable pub object_key : List ℕ → Result (List ℕ × List ℕ)
unfolding parse_string
object_key [] = err expected_object_key
object_key (c ∷ cs) = if c == 34 then parse_string (c ∷ cs) else err expected_object_key

-- The test of the first byte of a value that is a scalar.
unfoldable pub scalar : (List ℕ → Option StodError) → ℕ → List ℕ → Result (JsonValue × List ℕ)
unfolding parse_number parse_bool parse_null
scalar stod_error c cs =
    if c == 116 || c == 102
    then parse_bool cs
    else if c == 110
    then parse_null cs
    else if c == 45 || (leb 48 c && leb c 57)
    then parse_number stod_error cs
    else err invalid_value

module _ (stod_error : List ℕ → Option StodError) where
  unfoldable mutual
    unfolding parse_string skip_ws expect scalar object_key push_back emplace

    pub parse_value : ℕ → ℕ → List ℕ → Result (JsonValue × List ℕ)
    parse_value zero depth cs = err out_of_fuel
    parse_value (suc fuel) depth cs =
        let items = λ (ds : List ℕ). array_rounds fuel (suc depth) no_items ds in
        let fields = λ (ds : List ℕ). object_rounds fuel (suc depth) no_fields ds in
        if ltb max_depth depth then err nesting_limit_exceeded else elim (skip_ws cs) [
          | [] ↦ err unexpected_end_of_input
          | c ∷ ds ↦
              if c == 34
              then (parse_string (c ∷ ds) >>= λ (text, rest). ok (string text, rest))
              else if c == 123
              then (bracketed 125 no_fields fields (skip_ws ds) >>= λ (fs, rest).
                  ok (object fs, rest))
              else if c == 91
              then (bracketed 93 no_items items (skip_ws ds) >>= λ (xs, rest). ok (array xs, rest))
              else scalar stod_error c (c ∷ ds)
        ]

    pub array_rounds : ℕ → ℕ → Items → List ℕ → Result (Items × List ℕ)
    array_rounds zero depth xs cs = err out_of_fuel
    array_rounds (suc fuel) depth xs cs =
        let value = parse_value fuel depth in
        let more = λ (ys : Items) (ds : List ℕ). array_rounds fuel depth ys ds in
        value cs >>= λ (v, rest).
        separator 93 (λ ds. ok (push_back v xs, ds)) (more (push_back v xs)) unterminated_array
          expected_comma_or_bracket (skip_ws rest)

    pub object_rounds : ℕ → ℕ → Fields → List ℕ → Result (Fields × List ℕ)
    object_rounds zero depth fs cs = err out_of_fuel
    object_rounds (suc fuel) depth fs cs =
        let value = parse_value fuel depth in
        let more = λ (gs : Fields) (ds : List ℕ). object_rounds fuel depth gs ds in
        object_key (skip_ws cs) >>= λ (key, behind_key). expect 58 behind_key >>= λ behind_colon.
        value behind_colon >>= λ (v, rest).
        separator 125 (λ ds. ok (emplace key v fs, ds)) (more (emplace key v fs))
          unterminated_object expected_comma_or_brace (skip_ws rest)

  -- The test for trailing data.
  unfoldable pub at_end : JsonValue → List ℕ → Result JsonValue
  at_end v [] = ok v
  at_end v (c ∷ cs) = err unexpected_trailing_data

  unfoldable pub parse : List ℕ → Result JsonValue
  unfolding parse_value skip_ws at_end
  parse input = parse_value (2 * length input + 1) 0 input >>= λ (v, rest). at_end v (skip_ws rest)
