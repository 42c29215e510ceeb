-- ===== src/Json.antt =====
-- The JSON library, nlohmann::json, as the code uses it: a parameter, with what its documentation says of the
-- functions that are called. An exception of the library is an `err` with a `json_exception`. Numbers are the
-- `int`s of the code, without bounds as everywhere; what is dumped, the text of a message, is of a type of its own and
-- is parsed without loss. That `dump` throws on a text that is not UTF-8 is left out.
use hump.Prelude.{
  ℕ, ◌≡◌, Bool, true, false, List, [], ◌∷◌, Option, none, some, ℤ, if◌then◌else◌, String, str_eq,
  Result, ok, err, ◌>>=◌,
}
pub mod Sample
pub mod Fields

-- The first entry with the key.
unfoldable pub entry {ℓ} : {A : Type ℓ} → List (String × A) → String → Option A
entry [] key = none
entry ((k, v) ∷ fields) key = if str_eq k key then some v else entry fields key

abbrev pub is_some {ℓ} : {A : Type ℓ} → Option A → Bool
is_some none = false
is_some (some a) = true

pub record Json : Type 1 where
  pub Text : Type 0
  pub Value : Type 0
  pub null : Value
  pub string : String → Value
  pub number : ℤ → Value
  pub array : List Value → Value
  pub object : List (String × Value) → Value
  pub parse : Text → Result Value
  pub dump : Value → Text
  pub is_string : Value → Bool
  pub is_array : Value → Bool
  pub is_object : Value → Bool
  pub contains : Value → String → Bool
  pub at_key : Value → String → Result Value
  pub get_string : Value → Result String
  pub get_int : Value → Result ℤ
  pub elements : Value → List Value
  pub parse-dump : (v : Value) → parse (dump v) ≡ ok v
  pub is_string-string : (s : String) → is_string (string s) ≡ true
  pub is_array-array : (vs : List Value) → is_array (array vs) ≡ true
  pub is_object-object : (fs : List (String × Value)) → is_object (object fs) ≡ true
  pub contains-object :
      (fs : List (String × Value)) (key : String)
      → contains (object fs) key ≡ is_some (entry fs key)
  pub at_key-object :
      (fs : List (String × Value)) (key : String) (v : Value)
      → entry fs key ≡ some v
      → at_key (object fs) key ≡ ok v
  pub get_string-string : (s : String) → get_string (string s) ≡ ok s
  pub get_int-number : (n : ℤ) → get_int (number n) ≡ ok n
  pub elements-array : (vs : List Value) → elements (array vs) ≡ vs

-- `contains(key)` and then `at(key).get<...>()` of the entry.
abbrev pub string_at : (J : Json) → J.Value → String → Result String
string_at J v key = J.at_key v key >>= J.get_string

abbrev pub int_at : (J : Json) → J.Value → String → Result ℤ
int_at J v key = J.at_key v key >>= J.get_int
