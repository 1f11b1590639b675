-- ===== src/Json/RoundTrip.antt =====
-- What `json_escape` of src/openai_api.cpp writes, `Parser::parse_string` of
-- include/radixforge/json_minimal.h reads back.
use radixforge.Common.{
  ℕ, zero, suc, ◌+◌, ◌*◌, ◌/◌, ◌%◌, ◌^◌, ◌≤◌, ◌<◌, ◌≡◌, refl, sym, ap, ◌∙◌, List, [], ◌∷◌, ◌++◌,
  some, length, length-append, arith, ◌≢◌, subst, ℕ_discrete, dec_lt,
}
use mathlib.Core.List.{append-nil, append_assoc}
use radixforge.Json.Reading.{ok, expect, skip_ws}
use radixforge.Json.Strings.{
  hex_value, hex_digits, parse_unicode_code_unit, utf8, append_unicode_escape, append_escape,
  string_rounds, parse_string,
}
use radixforge.Json.Escape.{hex_digit, escape_byte, json_escape}

hex_value-hex_digit : (d : ℕ) → d < 16 → hex_value (hex_digit d) ≡ some d
unfolding hex_value hex_digit
hex_value-hex_digit d h = ground arith

hex_digits-hex_digit :
    (rounds unit d : ℕ) (cs : List ℕ)
    → d < 16
    → hex_digits (suc rounds) unit (hex_digit d ∷ cs)
      ≡ hex_digits rounds ((unit * 16 + d) % 2 ^ 16) cs
unfolding hex_digits
hex_digits-hex_digit rounds unit d cs h = rw (hex_value-hex_digit d h, hex_digits)

code_unit-four :
    (a b c d : ℕ) (rest : List ℕ)
    → parse_unicode_code_unit (a ∷ b ∷ c ∷ d ∷ rest) ≡ hex_digits 4 0 (a ∷ b ∷ c ∷ d ∷ rest)
unfolding parse_unicode_code_unit
code_unit-four a b c d rest = ground arith

-- Four digits from `snprintf` of a byte below 32.
code_unit-control :
    (c : ℕ) (rest : List ℕ)
    → c < 32
    → parse_unicode_code_unit
        (hex_digit 0 ∷ hex_digit 0 ∷ hex_digit (c / 16) ∷ hex_digit (c % 16) ∷ rest)
      ≡ ok (c, rest)
unfolding hex_digits
code_unit-control c rest h =
    rw
      (
        code_unit-four (hex_digit 0) (hex_digit 0) (hex_digit (c / 16)) (hex_digit (c % 16)) rest,
        hex_digits-hex_digit 3 0 0 (hex_digit 0 ∷ hex_digit (c / 16) ∷ hex_digit (c % 16) ∷ rest)
            (omega arith),
        hex_digits-hex_digit 2 0 0 (hex_digit (c / 16) ∷ hex_digit (c % 16) ∷ rest) (omega arith),
        hex_digits-hex_digit 1 0 (c / 16) (hex_digit (c % 16) ∷ rest) (omega arith),
        hex_digits-hex_digit 0 ((0 * 16 + c / 16) % 2 ^ 16) (c % 16) rest (omega arith),
      )
      (ground arith)

escape_control :
    (c : ℕ) (result rest : List ℕ)
    → c < 32
    → append_unicode_escape result
        (hex_digit 0 ∷ hex_digit 0 ∷ hex_digit (c / 16) ∷ hex_digit (c % 16) ∷ rest)
      ≡ ok (result ++ c ∷ [], rest)
unfolding append_unicode_escape utf8
escape_control c result rest h = rw (code_unit-control c rest h) (ground arith)

-- The round that reads back what was written for `c`.
abbrev Reads : ℕ → ℕ → List ℕ → List ℕ → Type 0
unfolding string_rounds append_escape escape_byte
Reads fuel c result rest =
    string_rounds (suc fuel) result (escape_byte c ++ rest)
    ≡ string_rounds fuel (result ++ c ∷ []) rest

Reads-control :
    (fuel c : ℕ) (result rest : List ℕ)
    → c < 32
    → c ≢ 9
    → c ≢ 10
    → c ≢ 13
    → Reads fuel c result rest
unfolding string_rounds append_escape escape_byte hex_digit
Reads-control fuel c result rest h tab newline return =
    let plain : escape_byte c
        ≡ 92 ∷ 117 ∷ hex_digit 0 ∷ hex_digit 0 ∷ hex_digit (c / 16) ∷ hex_digit (c % 16) ∷ [] =
      ground arith in
    rw (plain, escape_control c result rest h)

Reads-plain :
    (fuel c : ℕ) (result rest : List ℕ) → 32 ≤ c → c ≢ 34 → c ≢ 92 → Reads fuel c result rest
unfolding string_rounds escape_byte
Reads-plain fuel c result rest h quote backslash =
    let plain : escape_byte c ≡ c ∷ [] = ground arith in rw plain (ground arith)

rounds-escape_byte : (fuel c : ℕ) (result rest : List ℕ) → Reads fuel c result rest
unfolding string_rounds append_escape escape_byte
rounds-escape_byte fuel c result rest =
    let same = λ (k : ℕ) (e : c ≡ k) (r : Reads fuel k result rest).
      subst (λ x. Reads fuel x result rest) (sym e) r in
    elim (ℕ_discrete c 34) [
      | yes e ↦ same 34 e refl
      | no quote ↦ elim (ℕ_discrete c 92) [
        | yes e ↦ same 92 e refl
        | no backslash ↦ elim (ℕ_discrete c 10) [
          | yes e ↦ same 10 e refl
          | no newline ↦ elim (ℕ_discrete c 13) [
            | yes e ↦ same 13 e refl
            | no return ↦ elim (ℕ_discrete c 9) [
              | yes e ↦ same 9 e refl
              | no tab ↦ elim (dec_lt c 32) [
                | yes h ↦ Reads-control fuel c result rest h tab newline return
                | no h ↦ Reads-plain fuel c result rest (omega arith) quote backslash
              ]
            ]
          ]
        ]
      ]
    ]

-- The loop of `parse_string` reads the escaped bytes back and stops behind the closing quote.
rounds-json_escape :
    (fuel : ℕ) (value result rest : List ℕ)
    → length value < fuel
    → string_rounds fuel result (json_escape value ++ 34 ∷ rest) ≡ ok (result ++ value, rest)
unfolding json_escape string_rounds
rounds-json_escape zero value result rest h = elim h [ ]
rounds-json_escape (suc fuel) [] result rest h = rw (append-nil result)
rounds-json_escape (suc fuel) (c ∷ cs) result rest h =
    rw (append_assoc (escape_byte c) (json_escape cs) (34 ∷ rest)) (
      rounds-escape_byte fuel c result (json_escape cs ++ 34 ∷ rest)
      ∙ rounds-json_escape fuel cs (result ++ c ∷ []) rest (omega (arith, h))
      ∙ ap (λ r. ok (r, rest)) (append_assoc result (c ∷ []) cs))

length-escape_byte : (c : ℕ) → 1 ≤ length (escape_byte c)
unfolding escape_byte
length-escape_byte c = ground arith

length-json_escape : (value : List ℕ) → length value ≤ length (json_escape value)
unfolding json_escape
length-json_escape [] = omega arith
length-json_escape (c ∷ cs) = omega (
  arith,
  length-append (escape_byte c) (json_escape cs),
  length-escape_byte c,
  length-json_escape cs,
)

-- `parse_string` reads any bytes back from the quoted result of `json_escape`, whatever is behind
-- the closing quote, which it leaves.
pub parse_string-json_escape :
    (value rest : List ℕ) → parse_string (34 ∷ (json_escape value ++ 34 ∷ rest)) ≡ ok (value, rest)
unfolding parse_string expect skip_ws
parse_string-json_escape value rest =
    rounds-json_escape (length (json_escape value ++ 34 ∷ rest)) value [] rest
      (omega (arith, length-append (json_escape value) (34 ∷ rest), length-json_escape value))
