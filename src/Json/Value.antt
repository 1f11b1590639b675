-- ===== src/Json/Value.antt =====
-- `JsonValue` of include/radixforge/json_minimal.h.
--
-- A number keeps the bytes of its literal, in place of the `double` that `std::stod` makes of them.
-- An object is the list of its keys in the order of insertion; nothing reads it in the key order
-- of `std::map`.
use radixforge.Common.{ℕ, suc, Bool, true, false, List, [], ◌∷◌, ◌==◌, ◌&&◌, max, if◌then◌else◌}

mutual
  pub data JsonValue : Type 0 where
    null : JsonValue
    boolean : Bool → JsonValue
    number : List ℕ → JsonValue
    string : List ℕ → JsonValue
    array : Items → JsonValue
    object : Fields → JsonValue

  pub data Items : Type 0 where
    no_items : Items
    item : JsonValue → Items → Items

  pub data Fields : Type 0 where
    no_fields : Fields
    field : List ℕ → JsonValue → Fields → Fields

abbrev pub same_bytes : List ℕ → List ℕ → Bool
same_bytes [] [] = true
same_bytes [] (d ∷ ds) = false
same_bytes (c ∷ cs) [] = false
same_bytes (c ∷ cs) (d ∷ ds) = (c == d) && same_bytes cs ds

unfoldable pub push_back : JsonValue → Items → Items
push_back v no_items = item v no_items
push_back v (item w ws) = item w (push_back v ws)

-- `emplace`, which changes nothing where the key is present.
unfoldable pub emplace : List ℕ → JsonValue → Fields → Fields
emplace key v no_fields = field key v no_fields
emplace key v (field k w fs) =
    let behind = emplace key v fs in if same_bytes k key then field k w fs else field k w behind

-- How many containers stand around the innermost value. An empty container has nothing inside it.
unfoldable mutual
  pub surrounding : JsonValue → ℕ
  surrounding (array xs) = surrounding_items xs
  surrounding (object fs) = surrounding_fields fs
  surrounding _ = 0

  pub surrounding_items : Items → ℕ
  surrounding_items no_items = 0
  surrounding_items (item v vs) = max (suc (surrounding v)) (surrounding_items vs)

  pub surrounding_fields : Fields → ℕ
  surrounding_fields no_fields = 0
  surrounding_fields (field k v fs) = max (suc (surrounding v)) (surrounding_fields fs)

-- How deep containers nest, empty ones counted like the others.
unfoldable mutual
  pub nesting : JsonValue → ℕ
  nesting (array xs) = suc (nesting_items xs)
  nesting (object fs) = suc (nesting_fields fs)
  nesting _ = 0

  pub nesting_items : Items → ℕ
  nesting_items no_items = 0
  nesting_items (item v vs) = max (nesting v) (nesting_items vs)

  pub nesting_fields : Fields → ℕ
  nesting_fields no_fields = 0
  nesting_fields (field k v fs) = max (nesting v) (nesting_fields fs)
