-- ===== src/Server/Request/Members.antt =====
-- The members of a body, and the two accessors by which `parse_request_body` of src/openai_api.cpp
-- reads them.
use radixforge.Common.{ℕ, ◌≡◌, refl, Bool, false, ◌&&◌, List, [], Option, none, some, if◌then◌else◌}
use radixforge.Json.Value.{JsonValue, null, boolean, number, string, array, object}
use radixforge.Json.Access.{
  is_string, is_number, find, or_null, is_some, at_key, contains_key, as_string, as_bool,
  as_literal,
}
use radixforge.Server.Request.{user}

-- The member of a body with the key, and what it is.
abbrev pub member : List ℕ → JsonValue → Option JsonValue
member key (object fs) = find key fs
member key _ = none

abbrev pub text_in : Option JsonValue → List ℕ
text_in (some (string s)) = s
text_in _ = []

abbrev pub role_in : Option JsonValue → List ℕ
role_in none = user
role_in (some v) = text_in (some v)

abbrev pub literal_in : Option JsonValue → Option (List ℕ)
literal_in (some (number l)) = some l
literal_in _ = none

abbrev pub flag_in : Option JsonValue → Bool
flag_in (some (boolean b)) = b
flag_in _ = false

-- A member by the two accessors of the code.
pub by_member {ℓ} :
    (P : Bool → JsonValue → Type ℓ) (key : List ℕ) (v : JsonValue)
    → P (is_some (member key v)) (or_null (member key v))
    → P (contains_key key v) (at_key key v)
unfolding contains_key at_key
by_member P key null p = p
by_member P key (boolean b) p = p
by_member P key (number l) p = p
by_member P key (string s) p = p
by_member P key (array xs) p = p
by_member P key (object fs) p = p

pub text_in-as_string :
    (o : Option JsonValue) → (if is_some o then as_string (or_null o) else []) ≡ text_in o
text_in-as_string none = refl
text_in-as_string (some null) = refl
text_in-as_string (some (boolean b)) = refl
text_in-as_string (some (number l)) = refl
text_in-as_string (some (string s)) = refl
text_in-as_string (some (array xs)) = refl
text_in-as_string (some (object fs)) = refl

pub role_in-as_string :
    (o : Option JsonValue) → (if is_some o then as_string (or_null o) else user) ≡ role_in o
role_in-as_string none = refl
role_in-as_string (some v) = text_in-as_string (some v)

pub text_in-is_string :
    (o : Option JsonValue)
    → (if is_some o && is_string (or_null o) then as_string (or_null o) else []) ≡ text_in o
text_in-is_string none = refl
text_in-is_string (some null) = refl
text_in-is_string (some (boolean b)) = refl
text_in-is_string (some (number l)) = refl
text_in-is_string (some (string s)) = refl
text_in-is_string (some (array xs)) = refl
text_in-is_string (some (object fs)) = refl

pub literal_in-is_number :
    (o : Option JsonValue)
    → (if is_some o && is_number (or_null o) then some (as_literal (or_null o)) else none)
      ≡ literal_in o
literal_in-is_number none = refl
literal_in-is_number (some null) = refl
literal_in-is_number (some (boolean b)) = refl
literal_in-is_number (some (number l)) = refl
literal_in-is_number (some (string s)) = refl
literal_in-is_number (some (array xs)) = refl
literal_in-is_number (some (object fs)) = refl

pub flag_in-as_bool : (o : Option JsonValue) → is_some o && as_bool (or_null o) ≡ flag_in o
flag_in-as_bool none = refl
flag_in-as_bool (some null) = refl
flag_in-as_bool (some (boolean b)) = refl
flag_in-as_bool (some (number l)) = refl
flag_in-as_bool (some (string s)) = refl
flag_in-as_bool (some (array xs)) = refl
flag_in-as_bool (some (object fs)) = refl
