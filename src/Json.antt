-- ===== src/Json.antt =====
-- src/network/socket_client.cpp: `extract_string`, `extract_int` and `extract_bool`, by which the client
-- reads a state; and the fields that the server writes one by one into a state.
pub mod Lookup
pub mod Values
pub mod Keys
use ctd_project.Base.{
  Bool, true, false, ◌||◌, Option, none, some, List, [], ◌∷◌, ◌++◌, ◌==◌, ◌>>=◌, is_some, to_string,
  ℕ, ℤ, pos, Str, codes, if◌then◌else◌,
}
use ctd_project.Text.{drop, cut, cut_at, find, before_of, stoi}

-- `"\"" + key + "\""`
abbrev pub quoted : Str → Str
quoted key = b'"' ∷ (key ++ b'"' ∷ [])

string_at : Str → Str → Option Str
string_at s key = do
  at ← find (quoted key) s
  colon ← find (b':' ∷ []) at
  quote1 ← find (b'"' ∷ []) colon
  before_of (cut (b'"' ∷ []) (drop 1 quote1))

abbrev pub or_empty : Option Str → Str
or_empty none = []
or_empty (some s) = s

unfoldable pub extract_string : Str → Str → Str
unfolding string_at
extract_string s key = or_empty (string_at s key)

abbrev pub is_comma_or_brace : ℕ → Bool
is_comma_or_brace c = (c == b',') || (c == b'}')

-- What stands between the colon of the key and the next comma or brace.
value_at : Str → Str → Option Str
value_at s key = do
  at ← find (quoted key) s
  colon ← find (b':' ∷ []) at
  value ← before_of (cut_at is_comma_or_brace colon)
  some (drop 1 value)

int_of : Option Str → Option ℤ
int_of none = some (pos 0)
int_of (some s) = stoi s

-- There is no result where `std::stoi` throws.
unfoldable pub extract_int : Str → Str → Option ℤ
unfolding value_at int_of
extract_int s key = int_of (value_at s key)

bool_of : Option Str → Bool
bool_of none = false
bool_of (some s) = is_some (cut (codes "true") s)

unfoldable pub extract_bool : Str → Str → Bool
unfolding value_at bool_of
extract_bool s key = bool_of (value_at s key)

-- `(b ? "true" : "false")`
abbrev pub bool_text : Bool → Str
bool_text b = if b then codes "true" else codes "false"

-- The values that the server writes: a text in quotes, a number, or a truth value.
pub data Value : Type 0 where
  text : Str → Value
  number : ℤ → Value
  truth : Bool → Value

abbrev pub value_text : Value → Str
value_text (text s) = quoted s
value_text (number z) = to_string z
value_text (truth b) = bool_text b

pub record Field : Type 0 where
  pub key : Str
  pub value : Value

-- `"\"" + key + "\":" + value`
abbrev pub field_text : Field → Str
field_text f = quoted f.key ++ b':' ∷ value_text f.value

-- Fields with a comma behind each.
abbrev pub fields_text : List Field → Str
fields_text [] = []
fields_text (f ∷ fs) = field_text f ++ b',' ∷ fields_text fs

-- An object with the fields, of which the last stands apart.
abbrev pub object_text : List Field → Field → Str
object_text fs last = b'{' ∷ (fields_text fs ++ (field_text last ++ b'}' ∷ []))

-- With a comma between one and the next.
abbrev pub joined : List Str → Str
joined [] = []
joined (s ∷ []) = s
joined (s ∷ t ∷ rest) = s ++ b',' ∷ joined (t ∷ rest)

-- `""" + key + "":["`, the elements, `"]"`
abbrev pub array_text : Str → List Str → Str
array_text key items = quoted key ++ b':' ∷ b'[' ∷ (joined items ++ b']' ∷ [])

-- Fields of the three kinds of values.
abbrev pub string_field : Str → Str → Field
string_field key s = record { key = key; value = text s }

abbrev pub int_field : Str → ℤ → Field
int_field key z = record { key = key; value = number z }

abbrev pub bool_field : Str → Bool → Field
bool_field key b = record { key = key; value = truth b }
