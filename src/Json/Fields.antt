-- ===== src/Json/Fields.antt =====
-- The fields of an object that is built from a list.
use hump.Prelude.{◌≡◌, ◌∙◌, ap, true, List, some, ℤ, String, ok}
use hump.Json.{Json, entry, is_some, string_at, int_at}

module _ (J : Json) (fs : List (String × J.Value)) (key : String) where
  pub contains-entry : (v : J.Value) → entry fs key ≡ some v → J.contains (J.object fs) key ≡ true
  contains-entry v e = J.contains-object fs key ∙ ap is_some e

  pub string_at-entry :
      (s : String) → entry fs key ≡ some (J.string s) → string_at J (J.object fs) key ≡ ok s
  string_at-entry s e = rw (J.at_key-object fs key (J.string s) e) (J.get_string-string s)

  pub int_at-entry : (n : ℤ) → entry fs key ≡ some (J.number n) → int_at J (J.object fs) key ≡ ok n
  int_at-entry n e = rw (J.at_key-object fs key (J.number n) e) (J.get_int-number n)
