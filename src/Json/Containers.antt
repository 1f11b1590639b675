-- ===== src/Json/Containers.antt =====
-- The parts of arrays and objects that include/radixforge/json_minimal.h reads, how deep they nest
-- and how much they leave.
use radixforge.Common.{
  ℕ, suc, ◌+◌, ◌≤◌, ◌<◌, ◌≡◌, refl, List, [], ◌∷◌, ◌==◌, max, length, arith, Bool-cases, inl, inr,
}
use radixforge.Json.Reading.{JsonError, Result, ok, err, ◌>>=◌, skip_ws}
use radixforge.Json.Value.{
  JsonValue, array, object, Items, no_items, item, Fields, no_fields, field, push_back, emplace,
  same_bytes, surrounding, surrounding_items, surrounding_fields,
}
use radixforge.Json.Parse.{max_depth, separator, bracketed, object_key}
use radixforge.Json.Progress.{
  IsProper, Good, Fewer, Good-bind, Good-if, length-skip_ws, parse_string-Fewer,
}
use radixforge.Json.Literals.{Flat}

pub surrounding-push_back :
    (v : JsonValue) (xs : Items)
    → surrounding_items (push_back v xs) ≡ max (suc (surrounding v)) (surrounding_items xs)
unfolding push_back surrounding
surrounding-push_back v no_items = refl
surrounding-push_back v (item w ws) = omega (arith, surrounding-push_back v ws)

pub surrounding-emplace :
    (key : List ℕ) (v : JsonValue) (fs : Fields)
    → surrounding_fields (emplace key v fs) ≤ max (suc (surrounding v)) (surrounding_fields fs)
unfolding emplace surrounding
surrounding-emplace key v no_fields = omega arith
surrounding-emplace key v (field k w fs) = elim (Bool-cases (same_bytes k key)) [
  | inl e ↦ rw e (omega arith)
  | inr e ↦ rw e (omega (arith, surrounding-emplace key v fs))
]

-- A value at `depth` that leaves fewer than `n` bytes, and the parts of a container whose values
-- are at `depth`.
abbrev pub Within : ℕ → ℕ → JsonValue → List ℕ → Type 0
Within n depth v rest = (surrounding v + depth ≤ max_depth) × (length rest < n)

abbrev pub ItemsWithin : ℕ → ℕ → Items → List ℕ → Type 0
ItemsWithin n depth xs rest = (surrounding_items xs + depth ≤ suc max_depth) × (length rest < n)

abbrev pub FieldsWithin : ℕ → ℕ → Fields → List ℕ → Type 0
FieldsWithin n depth fs rest = (surrounding_fields fs + depth ≤ suc max_depth) × (length rest < n)

pub separator-Good {ℓ} :
    {A : Type ℓ} (P : A → List ℕ → Type 0) (close : ℕ) (done more : List ℕ → Result (A × List ℕ))
    (e e' : JsonError) (cs : List ℕ)
    → IsProper e
    → IsProper e'
    → ((ds : List ℕ) → length ds < length cs → Good P (done ds))
    → ((ds : List ℕ) → length ds < length cs → Good P (more ds))
    → Good P (separator close done more e e' cs)
separator-Good P close done more e e' [] h k d m = h
separator-Good P close done more e e' (c ∷ cs) h k d m =
    Good-if _ (c == close) _ _ (d cs (omega arith)) (Good-if _ (c == 44) _ _ (m cs (omega arith)) k)

bracketed-Good {ℓ} :
    {A : Type ℓ} (P : A → List ℕ → Type 0) (close : ℕ) (empty : A)
    (rounds : List ℕ → Result (A × List ℕ)) (cs : List ℕ)
    → ((ds : List ℕ) → length ds < length cs → P empty ds)
    → Good P (rounds cs)
    → Good P (bracketed close empty rounds cs)
bracketed-Good P close empty rounds [] d m = m
bracketed-Good P close empty rounds (c ∷ cs) d m = Good-if _ (c == close) _ _ (d cs (omega arith)) m

pub object_key-Fewer : (cs : List ℕ) → Good (Fewer (length cs)) (object_key cs)
unfolding object_key
object_key-Fewer [] = tt
object_key-Fewer (c ∷ cs) = Good-if _ (c == 34) _ _ (parse_string-Fewer (c ∷ cs)) tt

pub Flat-Within :
    (n m depth : ℕ) (r : Result (JsonValue × List ℕ))
    → n ≤ m
    → depth ≤ max_depth
    → Good (Flat n) r
    → Good (Within m depth) r
Flat-Within n m depth (ok (v, rest)) h k g = (omega (arith, g.0), omega (arith, g.1))
Flat-Within n m depth (err e) h k g = g

pub ItemsWithin-le :
    (n m depth : ℕ) (r : Result (Items × List ℕ))
    → n ≤ m
    → Good (ItemsWithin n depth) r
    → Good (ItemsWithin m depth) r
ItemsWithin-le n m depth (ok (xs, rest)) h g = (g.0, omega (arith, g.1))
ItemsWithin-le n m depth (err e) h g = g

pub FieldsWithin-le :
    (n m depth : ℕ) (r : Result (Fields × List ℕ))
    → n ≤ m
    → Good (FieldsWithin n depth) r
    → Good (FieldsWithin m depth) r
FieldsWithin-le n m depth (ok (fs, rest)) h g = (g.0, omega (arith, g.1))
FieldsWithin-le n m depth (err e) h g = g

pub array-Bracketed :
    (depth : ℕ) (ds : List ℕ) (n : ℕ) (rounds : List ℕ → Result (Items × List ℕ))
    → length ds < n
    → depth ≤ max_depth
    → Good (ItemsWithin (length (skip_ws ds)) (suc depth)) (rounds (skip_ws ds))
    → Good
        (Within n depth)
        (bracketed 93 no_items rounds (skip_ws ds) >>= λ (inner, rest). ok (array inner, rest))
unfolding surrounding
array-Bracketed depth ds n rounds l high g =
    let less : length (skip_ws ds) ≤ n = omega (arith, l, length-skip_ws ds) in
    Good-bind (ItemsWithin n (suc depth)) _ (bracketed 93 no_items rounds (skip_ws ds)) _
      (bracketed-Good _ 93 no_items rounds (skip_ws ds)
        (λ es k. (omega arith, omega (arith, k, less)))
        (ItemsWithin-le (length (skip_ws ds)) n (suc depth) (rounds (skip_ws ds)) less g))
      (λ inner rest k. (omega (arith, k.0), k.1))

pub object-Bracketed :
    (depth : ℕ) (ds : List ℕ) (n : ℕ) (rounds : List ℕ → Result (Fields × List ℕ))
    → length ds < n
    → depth ≤ max_depth
    → Good (FieldsWithin (length (skip_ws ds)) (suc depth)) (rounds (skip_ws ds))
    → Good
        (Within n depth)
        (bracketed 125 no_fields rounds (skip_ws ds) >>= λ (inner, rest). ok (object inner, rest))
unfolding surrounding
object-Bracketed depth ds n rounds l high g =
    let less : length (skip_ws ds) ≤ n = omega (arith, l, length-skip_ws ds) in
    Good-bind (FieldsWithin n (suc depth)) _ (bracketed 125 no_fields rounds (skip_ws ds)) _
      (bracketed-Good _ 125 no_fields rounds (skip_ws ds)
        (λ es k. (omega arith, omega (arith, k, less)))
        (FieldsWithin-le (length (skip_ws ds)) n (suc depth) (rounds (skip_ws ds)) less g))
      (λ inner rest k. (omega (arith, k.0), k.1))
