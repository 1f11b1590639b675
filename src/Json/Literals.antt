-- ===== src/Json/Literals.antt =====
-- The scanners of include/radixforge/json_minimal.h for numbers, `true`, `false` and `null` come to
-- an end and take a byte at least.
use radixforge.Common.{
  ℕ, suc, ◌+◌, ◌≤◌, ◌<◌, ◌≡◌, refl, false, List, [], ◌∷◌, ◌++◌, Option, some, ◌==◌, ◌||◌, length,
  arith, Option-cases, inl, inr,
}
use radixforge.Json.Reading.{StodError, JsonError, Result, ok, err, invalid_number}
use radixforge.Json.Value.{JsonValue, null, boolean, surrounding}
use radixforge.Json.Scalars.{
  is_digit, digits, some_digits, starts_with_digit, integer_part, sign_part, fraction_part,
  exponent_digits, exponent_part, number_text, parse_number, strip, literal, true_text, false_text,
  null_text, parse_bool, parse_null,
}
use radixforge.Json.Progress.{IsProper, Good, Left, Fewer, Good-bind, Good-if, Left-le, Left-Fewer}

digits-Left : (text cs : List ℕ) → length (digits text cs).1 ≤ length cs
unfolding digits
digits-Left text [] = omega arith
digits-Left text (c ∷ cs) = ground (arith, digits-Left (text ++ c ∷ []) cs)

some_digits-Fewer :
    (e : JsonError) (text cs : List ℕ)
    → IsProper e
    → Good (Fewer (length cs)) (some_digits e text cs)
unfolding some_digits
some_digits-Fewer e text [] h = h
some_digits-Fewer e text (c ∷ cs) h =
    Good-if _ (is_digit c) _ _ (omega (arith, digits-Left (text ++ c ∷ []) cs)) h

integer_part-Fewer : (text cs : List ℕ) → Good (Fewer (length cs)) (integer_part text cs)
unfolding integer_part
integer_part-Fewer text [] = tt
integer_part-Fewer text (c ∷ cs) =
    Good-if _ (c == 48) _ _ (Good-if _ (starts_with_digit cs) _ _ tt (omega arith))
      (some_digits-Fewer invalid_number text (c ∷ cs) tt)

sign_part-Left : (cs : List ℕ) → length (sign_part cs).1 ≤ length cs
unfolding sign_part
sign_part-Left [] = omega arith
sign_part-Left (c ∷ cs) = ground arith

Fewer-Left {ℓ} :
    {A : Type ℓ} (n m : ℕ) (r : Result (A × List ℕ)) → n ≤ m → Good (Fewer n) r → Good (Left m) r
Fewer-Left n m (ok (a, rest)) h g = omega arith
Fewer-Left n m (err e) h g = g

fraction_part-Left : (text cs : List ℕ) → Good (Left (length cs)) (fraction_part text cs)
unfolding fraction_part
fraction_part-Left text [] = omega arith
fraction_part-Left text (c ∷ cs) =
    Good-if _ (c == 46) _ _
      (Fewer-Left (length cs) (suc (length cs)) _ (omega arith)
        (some_digits-Fewer _ (text ++ c ∷ []) cs tt))
      (omega arith)

exponent_digits-Left : (text cs : List ℕ) → Good (Left (length cs)) (exponent_digits text cs)
unfolding exponent_digits
exponent_digits-Left text [] = tt
exponent_digits-Left text (c ∷ cs) =
    Good-if _ (c == 43 || c == 45) _ _
      (Fewer-Left (length cs) (suc (length cs)) _ (omega arith)
        (some_digits-Fewer _ (text ++ c ∷ []) cs tt))
      (Fewer-Left (suc (length cs)) (suc (length cs)) _ (omega arith)
        (some_digits-Fewer _ text (c ∷ cs) tt))

exponent_part-Left : (text cs : List ℕ) → Good (Left (length cs)) (exponent_part text cs)
unfolding exponent_part
exponent_part-Left text [] = omega arith
exponent_part-Left text (c ∷ cs) =
    Good-if _ (c == 101 || c == 69) _ _
      (Left-le (length cs) (suc (length cs)) _ (omega arith)
        (exponent_digits-Left (text ++ c ∷ []) cs))
      (omega arith)

number_text-Fewer : (cs : List ℕ) → Good (Fewer (length cs)) (number_text cs)
unfolding number_text
number_text-Fewer cs =
    let (sign, unsigned) = sign_part cs in
    Good-bind (Fewer (length unsigned)) _ (integer_part sign unsigned) _
      (integer_part-Fewer sign unsigned)
      (λ whole ds h.
        Good-bind (Left (length ds)) _ (fraction_part whole ds) _ (fraction_part-Left whole ds)
          (λ fraction es k.
            Left-Fewer (length es) (length cs) (exponent_part fraction es)
              (omega (arith, h, k, sign_part-Left cs)) (exponent_part-Left fraction es)))

-- A value that is no container, with less than `n` bytes left.
abbrev pub Flat : ℕ → JsonValue → List ℕ → Type 0
Flat n v rest = (surrounding v ≡ 0) × (length rest < n)

pub parse_number-Flat :
    (stod_error : List ℕ → Option StodError) (cs : List ℕ)
    → Good (Flat (length cs)) (parse_number stod_error cs)
unfolding parse_number surrounding
parse_number-Flat stod_error cs =
    Good-bind (Fewer (length cs)) _ (number_text cs) _ (number_text-Fewer cs) (λ text rest h.
      elim (Option-cases (stod_error text)) [ inl e ↦ rw e (refl, h) | inr (v, e) ↦ rw e tt ])

strip-Left :
    (word cs rest : List ℕ) → strip word cs ≡ some rest → length rest + length word ≤ length cs
unfolding strip
strip-Left [] cs rest e = ground arith
strip-Left (w ∷ ws) [] rest e = ground arith
strip-Left (w ∷ ws) (c ∷ cs) rest e = ground (arith, strip-Left ws cs rest)

literal-Flat :
    (word : List ℕ) (v : JsonValue) (cs : List ℕ)
    → 1 ≤ length word
    → surrounding v ≡ 0
    → Good (Flat (length cs)) (literal word v cs)
unfolding literal
literal-Flat word v cs h flat = elim (Option-cases (strip word cs)) [
  | inl e ↦ rw (e, Good) tt
  | inr (rest, e) ↦ rw (e, Good) (flat, omega (arith, h, strip-Left word cs rest e))
]

pub parse_bool-Flat : (cs : List ℕ) → Good (Flat (length cs)) (parse_bool cs)
unfolding parse_bool surrounding
parse_bool-Flat cs = elim (Option-cases (strip true_text cs)) [
  | inl e ↦ rw (e, Good) (literal-Flat false_text (boolean false) cs (omega arith) refl)
  | inr (rest, e) ↦ rw (e, Good) (refl, omega (arith, strip-Left true_text cs rest e))
]

pub parse_null-Flat : (cs : List ℕ) → Good (Flat (length cs)) (parse_null cs)
unfolding parse_null surrounding
parse_null-Flat cs = literal-Flat null_text null cs (omega arith) refl
