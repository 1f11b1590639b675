-- ===== src/Json/Reading.antt =====
-- The results of the parser of include/radixforge/json_minimal.h and its reading of single bytes.
--
-- A string is its bytes. `src_` and `pos_` become the bytes from `pos_` on; an operation that
-- advances returns what is left. An exception is `err` with a constructor for its message.
-- No exception is `out_of_fuel`: it marks a loop of the model that was cut off.
use radixforge.Common.{ℕ, Bool, List, [], ◌∷◌, ◌==◌, ◌||◌, if◌then◌else◌}

-- The exception of `std::stod`, and that of the test of its result.
pub data StodError : Type 0 where
  out_of_range : StodError
  non_finite_number : StodError

pub data JsonError : Type 0 where
  unexpected_trailing_data : JsonError
  nesting_limit_exceeded : JsonError
  unexpected_end_of_input : JsonError
  invalid_value : JsonError
  unescaped_control_character : JsonError
  unterminated_escape_sequence : JsonError
  invalid_escape_sequence : JsonError
  unterminated_string : JsonError
  unexpected_token : JsonError
  truncated_unicode_escape : JsonError
  invalid_unicode_escape : JsonError
  unpaired_high_surrogate : JsonError
  invalid_low_surrogate : JsonError
  unpaired_low_surrogate : JsonError
  expected_object_key : JsonError
  unterminated_object : JsonError
  expected_comma_or_brace : JsonError
  unterminated_array : JsonError
  expected_comma_or_bracket : JsonError
  invalid_number : JsonError
  leading_zero : JsonError
  invalid_number_fraction : JsonError
  invalid_number_exponent : JsonError
  unusable_number : StodError → JsonError
  invalid_literal : JsonError
  out_of_fuel : JsonError

pub data Result {ℓ} (A : Type ℓ) : Type ℓ where
  ok : A → Result A
  err : JsonError → Result A

infixl 5 ◌>>=◌
abbrev pub ◌>>=◌ {ℓ κ} : {A : Type ℓ} {B : Type κ} → Result A → (A → Result B) → Result B
ok a >>= f = f a
err e >>= f = err e

abbrev pub is_space : ℕ → Bool
is_space c = c == 32 || c == 9 || c == 10 || c == 13

unfoldable pub skip_ws : List ℕ → List ℕ
skip_ws [] = []
skip_ws (c ∷ cs) = if is_space c then skip_ws cs else c ∷ cs

-- The byte `c` at the front, taken away.
abbrev pub take_byte : ℕ → List ℕ → Result (List ℕ)
take_byte c [] = err unexpected_token
take_byte c (d ∷ ds) = if d == c then ok ds else err unexpected_token

unfoldable pub expect : ℕ → List ℕ → Result (List ℕ)
unfolding skip_ws
expect c cs = take_byte c (skip_ws cs)
