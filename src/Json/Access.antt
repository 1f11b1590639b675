-- ===== src/Json/Access.antt =====
-- The accessors of `JsonValue` in include/radixforge/json_minimal.h.
use radixforge.Common.{ℕ, Bool, true, false, List, [], Option, none, some, if◌then◌else◌}
use radixforge.Json.Value.{
  JsonValue, null, boolean, number, string, array, object, Fields, no_fields, field, same_bytes,
}

abbrev pub is_array : JsonValue → Bool
is_array (array xs) = true
is_array _ = false

abbrev pub is_string : JsonValue → Bool
is_string (string s) = true
is_string _ = false

abbrev pub is_number : JsonValue → Bool
is_number (number literal) = true
is_number _ = false

-- `find` of the object.
unfoldable pub find : List ℕ → Fields → Option JsonValue
find key no_fields = none
find key (field k v fs) = let behind = find key fs in if same_bytes k key then some v else behind

abbrev pub or_null : Option JsonValue → JsonValue
or_null none = null
or_null (some v) = v

abbrev pub is_some {ℓ} : {A : Type ℓ} → Option A → Bool
is_some none = false
is_some (some a) = true

-- `operator[]` and `contains`. Only an object has fields.
unfoldable pub at_key : List ℕ → JsonValue → JsonValue
unfolding find
at_key key (object fs) = or_null (find key fs)
at_key key _ = null

unfoldable pub contains_key : List ℕ → JsonValue → Bool
unfolding find
contains_key key (object fs) = is_some (find key fs)
contains_key key _ = false

abbrev pub as_string : JsonValue → List ℕ
as_string (string s) = s
as_string _ = []

abbrev pub as_bool : JsonValue → Bool
as_bool (boolean b) = b
as_bool _ = false

abbrev pub as_literal : JsonValue → List ℕ
as_literal (number literal) = literal
as_literal _ = []
