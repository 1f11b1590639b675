-- ===== src/Json/Scalars.antt =====
-- `parse_number`, `parse_bool` and `parse_null` of include/radixforge/json_minimal.h.
use radixforge.Common.{
  ℕ, Bool, true, false, Option, none, some, List, [], ◌∷◌, ◌++◌, ◌==◌, ◌&&◌, ◌||◌, leb,
  if◌then◌else◌,
}
use radixforge.Json.Reading.{
  StodError, JsonError, Result, ok, err, ◌>>=◌, invalid_number, leading_zero,
  invalid_number_fraction, invalid_number_exponent, unusable_number, invalid_literal,
}
use radixforge.Json.Value.{JsonValue, null, boolean, number}

abbrev pub is_digit : ℕ → Bool
is_digit c = leb 48 c && leb c 57

-- The digits at the front, put behind `text`, and what is left.
unfoldable pub digits : List ℕ → List ℕ → List ℕ × List ℕ
digits text [] = (text, [])
digits text (c ∷ cs) = if is_digit c then digits (text ++ c ∷ []) cs else (text, c ∷ cs)

-- One digit at least, or the exception given.
unfoldable pub some_digits : JsonError → List ℕ → List ℕ → Result (List ℕ × List ℕ)
unfolding digits
some_digits e text [] = err e
some_digits e text (c ∷ cs) = if is_digit c then ok (digits (text ++ c ∷ []) cs) else err e

abbrev pub starts_with_digit : List ℕ → Bool
starts_with_digit [] = false
starts_with_digit (c ∷ cs) = is_digit c

unfoldable pub integer_part : List ℕ → List ℕ → Result (List ℕ × List ℕ)
unfolding some_digits
integer_part text [] = err invalid_number
integer_part text (c ∷ cs) =
    if c == 48
    then if starts_with_digit cs then err leading_zero else ok (text ++ c ∷ [], cs)
    else some_digits invalid_number text (c ∷ cs)

unfoldable pub sign_part : List ℕ → List ℕ × List ℕ
sign_part (c ∷ cs) = if c == 45 then (c ∷ [], cs) else ([], c ∷ cs)
sign_part [] = ([], [])

unfoldable pub fraction_part : List ℕ → List ℕ → Result (List ℕ × List ℕ)
unfolding some_digits
fraction_part text [] = ok (text, [])
fraction_part text (c ∷ cs) =
    if c == 46 then some_digits invalid_number_fraction (text ++ c ∷ []) cs else ok (text, c ∷ cs)

-- The digits of an exponent behind its sign.
unfoldable pub exponent_digits : List ℕ → List ℕ → Result (List ℕ × List ℕ)
unfolding some_digits
exponent_digits text [] = err invalid_number_exponent
exponent_digits text (c ∷ cs) =
    if c == 43 || c == 45
    then some_digits invalid_number_exponent (text ++ c ∷ []) cs
    else some_digits invalid_number_exponent text (c ∷ cs)

unfoldable pub exponent_part : List ℕ → List ℕ → Result (List ℕ × List ℕ)
unfolding exponent_digits
exponent_part text [] = ok (text, [])
exponent_part text (c ∷ cs) =
    if c == 101 || c == 69 then exponent_digits (text ++ c ∷ []) cs else ok (text, c ∷ cs)

-- The bytes of the literal and what is left.
unfoldable pub number_text : List ℕ → Result (List ℕ × List ℕ)
unfolding sign_part integer_part fraction_part exponent_part
number_text cs =
    let (sign, unsigned) = sign_part cs in
    integer_part sign unsigned >>= λ (whole, behind_whole).
    fraction_part whole behind_whole >>= λ (fraction, behind_fraction).
    exponent_part fraction behind_fraction

-- `stod_error` is the exception that `std::stod` throws for a literal, or the test of its result.
unfoldable pub parse_number : (List ℕ → Option StodError) → List ℕ → Result (JsonValue × List ℕ)
unfolding number_text
parse_number stod_error cs = number_text cs >>= λ (text, rest). elim (stod_error text) [
  | none ↦ ok (number text, rest)
  | some e ↦ err (unusable_number e)
]

-- What is behind the word, where the bytes start with it.
unfoldable pub strip : List ℕ → List ℕ → Option (List ℕ)
strip [] cs = some cs
strip (w ∷ ws) [] = none
strip (w ∷ ws) (c ∷ cs) = let rest = strip ws cs in if w == c then rest else none

-- The value where the bytes start with the word.
unfoldable pub literal : List ℕ → JsonValue → List ℕ → Result (JsonValue × List ℕ)
unfolding strip
literal word v cs = elim (strip word cs) [ none ↦ err invalid_literal | some rest ↦ ok (v, rest) ]

abbrev pub true_text : List ℕ
true_text = 116 ∷ 114 ∷ 117 ∷ 101 ∷ []

abbrev pub false_text : List ℕ
false_text = 102 ∷ 97 ∷ 108 ∷ 115 ∷ 101 ∷ []

abbrev pub null_text : List ℕ
null_text = 110 ∷ 117 ∷ 108 ∷ 108 ∷ []

unfoldable pub parse_bool : List ℕ → Result (JsonValue × List ℕ)
unfolding literal strip
parse_bool cs = elim (strip true_text cs) [
  | some rest ↦ ok (boolean true, rest)
  | none ↦ literal false_text (boolean false) cs
]

unfoldable pub parse_null : List ℕ → Result (JsonValue × List ℕ)
unfolding literal strip
parse_null cs = literal null_text null cs
