-- ===== src/Json/Strings.antt =====
-- `Parser::parse_string` of include/radixforge/json_minimal.h with its escapes.
use radixforge.Common.{
  ℕ, zero, suc, ◌+◌, ◌-◌, ◌*◌, ◌/◌, ◌%◌, ◌^◌, Option, none, some, List, [], ◌∷◌, ◌++◌, ◌==◌, ◌&&◌,
  ltb, leb, if◌then◌else◌, length,
}
use radixforge.Json.Reading.{
  Result, ok, err, ◌>>=◌, expect, unescaped_control_character, unterminated_escape_sequence,
  invalid_escape_sequence, unterminated_string, truncated_unicode_escape, invalid_unicode_escape,
  unpaired_high_surrogate, invalid_low_surrogate, unpaired_low_surrogate, out_of_fuel,
}

-- `none` stands for -1.
unfoldable pub hex_value : ℕ → Option ℕ
hex_value c =
    if leb 48 c && leb c 57
    then some (c - 48)
    else if leb 97 c && leb c 102
    then some (c - 97 + 10)
    else if leb 65 c && leb c 70
    then some (c - 65 + 10)
    else none

-- The rounds of the loop; `code_unit << 4 | value` of a value below 16, as a `uint16_t`.
unfoldable pub hex_digits : ℕ → ℕ → List ℕ → Result (ℕ × List ℕ)
unfolding hex_value
hex_digits zero code_unit cs = ok (code_unit, cs)
hex_digits (suc rounds) code_unit [] = err truncated_unicode_escape
hex_digits (suc rounds) code_unit (c ∷ cs) = elim (hex_value c) [
  | none ↦ err invalid_unicode_escape
  | some value ↦ hex_digits rounds ((code_unit * 16 + value) % 2 ^ 16) cs
]

unfoldable pub parse_unicode_code_unit : List ℕ → Result (ℕ × List ℕ)
unfolding hex_digits
parse_unicode_code_unit cs =
    if ltb (length cs) 4 then err truncated_unicode_escape else hex_digits 4 0 cs

-- The operands of each `|` have no common bits, so that it is a sum.
unfoldable pub utf8 : ℕ → List ℕ
utf8 point =
    if leb point 127
    then point ∷ []
    else if leb point 2047
    then (192 + point / 64) ∷ (128 + point % 64) ∷ []
    else if leb point 65535
    then (224 + point / 4096) ∷ (128 + point / 64 % 64) ∷ (128 + point % 64) ∷ []
    else (240 + point / 262144)
      ∷ (128 + point / 4096 % 64)
      ∷ (128 + point / 64 % 64)
      ∷ (128 + point % 64)
      ∷ []

-- The code point of a high surrogate and the low one that has to be next.
unfoldable pub low_surrogate : ℕ → List ℕ → Result (ℕ × List ℕ)
unfolding parse_unicode_code_unit
low_surrogate high (b ∷ u ∷ cs) =
    if b == 92 && u == 117
    then (parse_unicode_code_unit cs >>= λ (low, rest).
        if ltb low 56320
        then err invalid_low_surrogate
        else if ltb 57343 low
        then err invalid_low_surrogate
        else ok (65536 + (high - 55296) * 1024 + (low - 56320), rest))
    else err unpaired_high_surrogate
low_surrogate high _ = err unpaired_high_surrogate

abbrev pub code_point : ℕ × List ℕ → Result (ℕ × List ℕ)
unfolding low_surrogate
code_point (unit, cs) =
    if leb 55296 unit && leb unit 56319
    then low_surrogate unit cs
    else if leb 56320 unit && leb unit 57343
    then err unpaired_low_surrogate
    else ok (unit, cs)

-- What is appended to `result`, and what is left to read.
unfoldable pub append_unicode_escape : List ℕ → List ℕ → Result (List ℕ × List ℕ)
unfolding parse_unicode_code_unit code_point low_surrogate utf8
append_unicode_escape result cs = parse_unicode_code_unit cs >>= λ unit.
    code_point unit >>= λ (point, rest). ok (result ++ utf8 point, rest)

-- The `switch` on the byte behind a backslash.
unfoldable pub append_escape : ℕ → List ℕ → List ℕ → Result (List ℕ × List ℕ)
unfolding append_unicode_escape
append_escape c result cs =
    if c == 34
    then ok (result ++ 34 ∷ [], cs)
    else if c == 92
    then ok (result ++ 92 ∷ [], cs)
    else if c == 47
    then ok (result ++ 47 ∷ [], cs)
    else if c == 98
    then ok (result ++ 8 ∷ [], cs)
    else if c == 102
    then ok (result ++ 12 ∷ [], cs)
    else if c == 110
    then ok (result ++ 10 ∷ [], cs)
    else if c == 114
    then ok (result ++ 13 ∷ [], cs)
    else if c == 116
    then ok (result ++ 9 ∷ [], cs)
    else if c == 117
    then append_unicode_escape result cs
    else err invalid_escape_sequence

-- Any escape sequence, behind its backslash.
abbrev pub escape_sequence : List ℕ → List ℕ → Result (List ℕ × List ℕ)
unfolding append_escape
escape_sequence result [] = err unterminated_escape_sequence
escape_sequence result (c ∷ cs) = append_escape c result cs

-- The rounds of the loop, each of which reads a byte at least.
unfoldable pub string_rounds : ℕ → List ℕ → List ℕ → Result (List ℕ × List ℕ)
unfolding escape_sequence append_escape
string_rounds fuel result [] = err unterminated_string
string_rounds zero result (c ∷ cs) = err out_of_fuel
string_rounds (suc fuel) result (c ∷ cs) =
    let next = λ (r : List ℕ × List ℕ). string_rounds fuel (r.0) (r.1) in
    if c == 34
    then ok (result, cs)
    else if ltb c 32
    then err unescaped_control_character
    else if c == 92
    then (escape_sequence result cs >>= next)
    else next (result ++ c ∷ [], cs)

unfoldable pub parse_string : List ℕ → Result (List ℕ × List ℕ)
unfolding expect string_rounds
parse_string cs = expect 34 cs >>= λ rest. string_rounds (length rest) [] rest
