-- ===== src/Json/Limits.antt =====
-- The recursion of `Parser::parse` of include/radixforge/json_minimal.h: how deep the values are
-- that it builds, and that it ends.
use radixforge.Common.{
  ℕ, zero, suc, ◌+◌, ◌*◌, ◌≤◌, ◌<◌, List, [], ◌∷◌, Option, ◌==◌, ◌&&◌, ◌||◌, ltb, leb, length,
  arith, subst, Bool-cases, List-cases, inl, inr,
}
use radixforge.Json.Reading.{
  StodError, Result, ok, err, ◌>>=◌, skip_ws, unterminated_array, expected_comma_or_bracket,
  unterminated_object, expected_comma_or_brace,
}
use radixforge.Json.Strings.{parse_string}
use radixforge.Json.Value.{
  JsonValue, null, boolean, number, string, array, object, Items, item, no_items, field, nesting,
  nesting_items, nesting_fields, Fields, no_fields, push_back, emplace, surrounding,
  surrounding_items, surrounding_fields,
}
use radixforge.Json.Parse.{
  max_depth, object_key, scalar, parse_value, array_rounds, object_rounds, at_end, parse,
}
use radixforge.Json.Progress.{
  IsProper, Good, Fewer, Good-bind, Good-if, length-skip_ws, expect-bind, parse_string-Fewer,
}
use radixforge.Json.Literals.{Flat, parse_number-Flat, parse_bool-Flat, parse_null-Flat}
use radixforge.Json.Containers.{
  surrounding-push_back, surrounding-emplace, Within, ItemsWithin, FieldsWithin, separator-Good,
  object_key-Fewer, Flat-Within, ItemsWithin-le, FieldsWithin-le, array-Bracketed, object-Bracketed,
}

-- A value within the limits, or an exception that the code throws. The limit of the code is on what
-- stands around a value, so that an empty container may stand one level deeper.
abbrev pub IsBounded : Result JsonValue → Type 0
IsBounded (ok v) = (surrounding v ≤ max_depth) × (nesting v ≤ max_depth + 1)
IsBounded (err e) = IsProper e

mutual
  unfolding nesting surrounding

  nesting-surrounding : (v : JsonValue) → nesting v ≤ suc (surrounding v)
  nesting-surrounding null = omega arith
  nesting-surrounding (boolean b) = omega arith
  nesting-surrounding (number literal) = omega arith
  nesting-surrounding (string s) = omega arith
  nesting-surrounding (array xs) = omega (arith, nesting_items-surrounding xs)
  nesting-surrounding (object fs) = omega (arith, nesting_fields-surrounding fs)

  nesting_items-surrounding : (xs : Items) → nesting_items xs ≤ surrounding_items xs
  nesting_items-surrounding no_items = omega arith
  nesting_items-surrounding (item v vs) =
      omega (arith, nesting-surrounding v, nesting_items-surrounding vs)

  nesting_fields-surrounding : (fs : Fields) → nesting_fields fs ≤ surrounding_fields fs
  nesting_fields-surrounding no_fields = omega arith
  nesting_fields-surrounding (field k v fs) =
      omega (arith, nesting-surrounding v, nesting_fields-surrounding fs)

module _ (stod_error : List ℕ → Option StodError) where
  scalar-Flat : (c : ℕ) (cs : List ℕ) → Good (Flat (length cs)) (scalar stod_error c cs)
  unfolding scalar
  scalar-Flat c cs = Good-if _ (c == 116 || c == 102) _ _ (parse_bool-Flat cs) (
      Good-if _ (c == 110) _ _ (parse_null-Flat cs)
        (Good-if _ (c == 45 || (leb 48 c && leb c 57)) _ _ (parse_number-Flat stod_error cs) tt))

  mutual
    unfolding parse_value surrounding

    value-Within :
        (fuel depth : ℕ) (cs : List ℕ)
        → 2 * length cs < fuel
        → Good (Within (length cs) depth) (parse_value stod_error fuel depth cs)
    value-Within zero depth cs h = absurd (omega arith)
    value-Within (suc fuel) depth cs h = elim (Bool-cases (ltb max_depth depth)) [
      | inl deep ↦ rw deep tt
      | inr deep ↦ elim (List-cases (skip_ws cs)) [
        | inl e ↦ rw (deep, e) tt
        | inr (c, ds, e) ↦
            let long : length (c ∷ ds) ≤ length cs =
              subst (λ x. length x ≤ length cs) e (length-skip_ws cs) in
            let high : depth ≤ max_depth = ground arith in
            rw (deep, e)
              (Good-if _ (c == 34) _ _
                (Good-bind (Fewer (length (c ∷ ds))) _ (parse_string (c ∷ ds)) _
                  (parse_string-Fewer (c ∷ ds))
                  (λ text rest l. (omega arith, omega (arith, l, long))))
                (Good-if _ (c == 123) _ _
                  (object-Bracketed depth ds (length cs)
                    (λ x. object_rounds stod_error fuel (suc depth) no_fields x)
                    (omega (arith, long)) high
                    (object-Within fuel (suc depth) no_fields (skip_ws ds)
                      (omega (arith, h, long, length-skip_ws ds)) (omega arith)))
                  (Good-if _ (c == 91) _ _
                    (array-Bracketed depth ds (length cs)
                      (λ x. array_rounds stod_error fuel (suc depth) no_items x)
                      (omega (arith, long)) high
                      (array-Within fuel (suc depth) no_items (skip_ws ds)
                        (omega (arith, h, long, length-skip_ws ds)) (omega arith)))
                    (Flat-Within (length (c ∷ ds)) (length cs) depth (scalar stod_error c (c ∷ ds))
                      long high (scalar-Flat c (c ∷ ds))))))
      ]
    ]

    array-Within :
        (fuel depth : ℕ) (xs : Items) (cs : List ℕ)
        → 2 * length cs + 1 < fuel
        → surrounding_items xs + depth ≤ suc max_depth
        → Good (ItemsWithin (length cs) depth) (array_rounds stod_error fuel depth xs cs)
    array-Within zero depth xs cs h n = absurd (omega arith)
    array-Within (suc fuel) depth xs cs h n =
        Good-bind (Within (length cs) depth) _ (parse_value stod_error fuel depth cs) _
          (value-Within fuel depth cs (omega arith))
          (λ v rest k.
            separator-Good _ 93 _ _ unterminated_array expected_comma_or_bracket (skip_ws rest) tt
              tt
              (λ ds l. (
                omega (arith, k.0, n, surrounding-push_back v xs),
                omega (arith, l, k.1, length-skip_ws rest),
              ))
              (λ ds l.
                ItemsWithin-le (length ds) (length cs) depth
                  (array_rounds stod_error fuel depth (push_back v xs) ds)
                  (omega (arith, l, k.1, length-skip_ws rest))
                  (array-Within fuel depth (push_back v xs) ds
                    (omega (arith, h, l, k.1, length-skip_ws rest))
                    (omega (arith, k.0, n, surrounding-push_back v xs)))))

    object-Within :
        (fuel depth : ℕ) (fs : Fields) (cs : List ℕ)
        → 2 * length cs + 1 < fuel
        → surrounding_fields fs + depth ≤ suc max_depth
        → Good (FieldsWithin (length cs) depth) (object_rounds stod_error fuel depth fs cs)
    object-Within zero depth fs cs h n = absurd (omega arith)
    object-Within (suc fuel) depth fs cs h n =
        Good-bind (Fewer (length (skip_ws cs))) _ (object_key (skip_ws cs)) _
          (object_key-Fewer (skip_ws cs))
          (λ key bs kk. expect-bind _ 58 bs _ (λ es ke.
            Good-bind (Within (length es) depth) _ (parse_value stod_error fuel depth es) _
              (value-Within fuel depth es (omega (arith, h, kk, ke, length-skip_ws cs)))
              (λ v rest k.
                separator-Good _ 125 _ _ unterminated_object expected_comma_or_brace (skip_ws rest)
                  tt tt
                  (λ ds l. (
                    omega (arith, k.0, n, surrounding-emplace key v fs),
                    omega (arith, l, k.1, kk, ke, length-skip_ws rest, length-skip_ws cs),
                  ))
                  (λ ds l.
                    FieldsWithin-le (length ds) (length cs) depth
                      (object_rounds stod_error fuel depth (emplace key v fs) ds)
                      (omega (arith, l, k.1, kk, ke, length-skip_ws rest, length-skip_ws cs))
                      (object-Within fuel depth (emplace key v fs) ds
                        (omega (arith, h, l, k.1, kk, ke, length-skip_ws rest, length-skip_ws cs))
                        (omega (arith, k.0, n, surrounding-emplace key v fs)))))))

  at_end-IsBounded :
      (v : JsonValue) (cs : List ℕ) → surrounding v ≤ max_depth → IsBounded (at_end stod_error v cs)
  unfolding at_end
  at_end-IsBounded v [] h = (h, omega (arith, h, nesting-surrounding v))
  at_end-IsBounded v (c ∷ cs) h = tt

  result-IsBounded :
      (n : ℕ) (r : Result (JsonValue × List ℕ))
      → Good (Within n 0) r
      → IsBounded (r >>= λ (v, rest). at_end stod_error v (skip_ws rest))
  result-IsBounded n (ok (v, rest)) g = at_end-IsBounded v (skip_ws rest) (omega (arith, g.0))
  result-IsBounded n (err e) g = g

  -- For any input, `parse` ends: it throws an exception of the code, or returns a value in which at
  -- most 64 containers stand around any other value, so that containers nest at most 65 deep, the
  -- empty ones counted.
  pub parse-IsBounded : (input : List ℕ) → IsBounded (parse stod_error input)
  unfolding parse
  parse-IsBounded input =
      result-IsBounded (length input) (parse_value stod_error (2 * length input + 1) 0 input)
        (value-Within (2 * length input + 1) 0 input (omega arith))
