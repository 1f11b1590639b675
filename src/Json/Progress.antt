-- ===== src/Json/Progress.antt =====
-- The scanners of include/radixforge/json_minimal.h that read no value inside another: each comes
-- to an end and never moves back.
use radixforge.Common.{
  ℕ, zero, suc, ◌+◌, ◌*◌, ◌%◌, ◌^◌, ◌≤◌, ◌<◌, Bool, true, false, List, [], ◌∷◌, ◌++◌, ltb, leb,
  ◌==◌, ◌&&◌, if◌then◌else◌, length, arith, Option-cases, Bool-cases, inl, inr,
}
use radixforge.Json.Reading.{
  JsonError, Result, ok, err, ◌>>=◌, out_of_fuel, skip_ws, take_byte, expect,
}
use radixforge.Json.Strings.{
  hex_value, hex_digits, parse_unicode_code_unit, low_surrogate, code_point, append_unicode_escape,
  append_escape, escape_sequence, string_rounds, parse_string,
}

abbrev pub IsProper : JsonError → Type 0
IsProper out_of_fuel = ⊥
IsProper _ = Unit

-- A result satisfies `P`, and an exception is one that the code throws.
abbrev pub Good {ℓ} : {A : Type ℓ} → (A → List ℕ → Type 0) → Result (A × List ℕ) → Type 0
Good P (ok (a, rest)) = P a rest
Good P (err e) = IsProper e

-- At most `n` bytes are left.
abbrev pub Left {ℓ} : {A : Type ℓ} → ℕ → A → List ℕ → Type 0
Left n a rest = length rest ≤ n

pub Good-bind {ℓ κ} :
    {A : Type ℓ} {B : Type κ} (P : A → List ℕ → Type 0) (Q : B → List ℕ → Type 0)
    (r : Result (A × List ℕ)) (f : A × List ℕ → Result (B × List ℕ))
    → Good P r
    → ((a : A) (rest : List ℕ) → P a rest → Good Q (f (a, rest)))
    → Good Q (r >>= f)
Good-bind P Q (ok (a, rest)) f g h = h a rest g
Good-bind P Q (err e) f g h = g

pub Good-if {ℓ} :
    {A : Type ℓ} (P : A → List ℕ → Type 0) (b : Bool) (x y : Result (A × List ℕ))
    → Good P x
    → Good P y
    → Good P (if b then x else y)
Good-if P true x y g h = g
Good-if P false x y g h = h

pub Left-le {ℓ} :
    {A : Type ℓ} (n m : ℕ) (r : Result (A × List ℕ)) → n ≤ m → Good (Left n) r → Good (Left m) r
Left-le n m (ok (a, rest)) h g = omega arith
Left-le n m (err e) h g = g

pub length-skip_ws : (cs : List ℕ) → length (skip_ws cs) ≤ length cs
unfolding skip_ws
length-skip_ws [] = omega arith
length-skip_ws (c ∷ cs) = ground (arith, length-skip_ws cs)

hex_digits-Left :
    (rounds unit : ℕ) (cs : List ℕ) → Good (Left (length cs)) (hex_digits rounds unit cs)
unfolding hex_digits
hex_digits-Left zero unit cs = omega arith
hex_digits-Left (suc rounds) unit [] = tt
hex_digits-Left (suc rounds) unit (c ∷ cs) = elim (Option-cases (hex_value c)) [
  | inl e ↦ rw (e, hex_digits) tt
  | inr (v, e) ↦
      rw (e, hex_digits) (ground (arith, hex_digits-Left rounds ((unit * 16 + v) % 2 ^ 16) cs))
]

unit-Left : (cs : List ℕ) → Good (Left (length cs)) (parse_unicode_code_unit cs)
unfolding parse_unicode_code_unit
unit-Left cs = Good-if _ (ltb (length cs) 4) _ _ tt (hex_digits-Left 4 0 cs)

low_surrogate-Left : (high : ℕ) (cs : List ℕ) → Good (Left (length cs)) (low_surrogate high cs)
unfolding low_surrogate
low_surrogate-Left high [] = tt
low_surrogate-Left high (b ∷ []) = tt
low_surrogate-Left high (b ∷ u ∷ cs) =
    Good-if _ (b == 92 && u == 117) _ _
      (Good-bind (Left (length cs)) _ (parse_unicode_code_unit cs) _ (unit-Left cs) (λ low rest h.
        Good-if _ (ltb low 56320) _ _ tt (Good-if _ (ltb 57343 low) _ _ tt (omega arith))))
      tt

code_point-Left : (unit : ℕ) (cs : List ℕ) → Good (Left (length cs)) (code_point (unit, cs))
unfolding low_surrogate
code_point-Left unit cs =
    Good-if _ (leb 55296 unit && leb unit 56319) _ _ (low_surrogate-Left unit cs)
      (Good-if _ (leb 56320 unit && leb unit 57343) _ _ tt (omega arith))

unicode-Left : (result cs : List ℕ) → Good (Left (length cs)) (append_unicode_escape result cs)
unfolding append_unicode_escape
unicode-Left result cs =
    Good-bind (Left (length cs)) _ (parse_unicode_code_unit cs) _ (unit-Left cs) (λ unit ds h.
      Good-bind (Left (length ds)) _ (code_point (unit, ds)) _ (code_point-Left unit ds)
        (λ point rest k. omega arith))

escape-Left : (c : ℕ) (result cs : List ℕ) → Good (Left (length cs)) (append_escape c result cs)
unfolding append_escape
escape-Left c result cs =
    let here : length cs ≤ length cs = omega arith in
    Good-if _ (c == 34) _ _ here (
      Good-if _ (c == 92) _ _ here (
        Good-if _ (c == 47) _ _ here (
          Good-if _ (c == 98) _ _ here (
            Good-if _ (c == 102) _ _ here (
              Good-if _ (c == 110) _ _ here (
                Good-if _ (c == 114) _ _ here (
                  Good-if _ (c == 116) _ _ here
                    (Good-if _ (c == 117) _ _ (unicode-Left result cs) tt))))))))

sequence-Left : (result cs : List ℕ) → Good (Left (length cs)) (escape_sequence result cs)
unfolding append_escape
sequence-Left result [] = tt
sequence-Left result (c ∷ cs) =
    Left-le (length cs) (length (c ∷ cs)) (append_escape c result cs) (omega arith)
      (escape-Left c result cs)

rounds-Left :
    (fuel : ℕ) (result cs : List ℕ)
    → length cs ≤ fuel
    → Good (Left (length cs)) (string_rounds fuel result cs)
unfolding string_rounds append_escape
rounds-Left fuel result [] h = tt
rounds-Left zero result (c ∷ cs) h = absurd (omega arith)
rounds-Left (suc fuel) result (c ∷ cs) h = Good-if _ (c == 34) _ _ (omega arith) (
    Good-if _ (ltb c 32) _ _ tt (
      Good-if _ (c == 92) _ _
        (Good-bind (Left (length cs)) _ (escape_sequence result cs) _ (sequence-Left result cs)
          (λ r rest k.
            Left-le (length rest) (suc (length cs)) (string_rounds fuel r rest) (omega arith)
              (rounds-Left fuel r rest (omega arith))))
        (Left-le (length cs) (suc (length cs)) (string_rounds fuel (result ++ c ∷ []) cs)
          (omega arith) (rounds-Left fuel (result ++ c ∷ []) cs (omega arith)))))

-- Less than `n` bytes are left.
abbrev pub Fewer {ℓ} : {A : Type ℓ} → ℕ → A → List ℕ → Type 0
Fewer n a rest = length rest < n

pub Left-Fewer {ℓ} :
    {A : Type ℓ} (n m : ℕ) (r : Result (A × List ℕ)) → n < m → Good (Left n) r → Good (Fewer m) r
Left-Fewer n m (ok (a, rest)) h g = omega arith
Left-Fewer n m (err e) h g = g

take_byte-bind {ℓ} :
    {B : Type ℓ} (Q : B → List ℕ → Type 0) (c : ℕ) (cs : List ℕ) (f : List ℕ → Result (B × List ℕ))
    → ((rest : List ℕ) → length rest < length cs → Good Q (f rest))
    → Good Q (take_byte c cs >>= f)
take_byte-bind Q c [] f h = tt
take_byte-bind Q c (d ∷ ds) f h = elim (Bool-cases (d == c)) [
  | inl e ↦ rw e (h ds (omega arith))
  | inr e ↦ rw e tt
]

pub expect-bind {ℓ} :
    {B : Type ℓ} (Q : B → List ℕ → Type 0) (c : ℕ) (cs : List ℕ) (f : List ℕ → Result (B × List ℕ))
    → ((rest : List ℕ) → length rest < length cs → Good Q (f rest))
    → Good Q (expect c cs >>= f)
unfolding expect
expect-bind Q c cs f h =
    take_byte-bind Q c (skip_ws cs) f (λ rest k. h rest (omega (arith, k, length-skip_ws cs)))

pub parse_string-Fewer : (cs : List ℕ) → Good (Fewer (length cs)) (parse_string cs)
unfolding parse_string
parse_string-Fewer cs = expect-bind (Fewer (length cs)) 34 cs _ (λ rest h.
    Left-Fewer (length rest) (length cs) (string_rounds (length rest) [] rest) h
      (rounds-Left (length rest) [] rest (omega arith)))
