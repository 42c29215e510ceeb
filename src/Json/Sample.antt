-- ===== src/Json/Sample.antt =====
-- JSON values as trees, which do all that is asked of the library: for the tests.
use hump.Prelude.{
  ◌≡◌, refl, ap, Bool, true, false, List, [], ◌∷◌, Option, none, some, ℤ, String, Result, ok, err,
  json_exception,
}
use hump.Json.{Json, entry, is_some}

mutual
  pub data Tree : Type 0 where
    null : Tree
    string : String → Tree
    number : ℤ → Tree
    array : Trees → Tree
    object : Fields → Tree

  pub data Trees : Type 0 where
    nil : Trees
    cons : Tree → Trees → Trees

  pub data Fields : Type 0 where
    end : Fields
    field : String → Tree → Fields → Fields

abbrev pub to_trees : List Tree → Trees
to_trees [] = nil
to_trees (v ∷ vs) = cons v (to_trees vs)

abbrev pub of_trees : Trees → List Tree
of_trees nil = []
of_trees (cons v vs) = v ∷ of_trees vs

pub of_to_trees : (vs : List Tree) → of_trees (to_trees vs) ≡ vs
of_to_trees [] = refl
of_to_trees (v ∷ vs) = ap (λ ws. v ∷ ws) (of_to_trees vs)

abbrev pub to_fields : List (String × Tree) → Fields
to_fields [] = end
to_fields ((k, v) ∷ fs) = field k v (to_fields fs)

abbrev pub of_fields : Fields → List (String × Tree)
of_fields end = []
of_fields (field k v fs) = (k, v) ∷ of_fields fs

pub of_to_fields : (fs : List (String × Tree)) → of_fields (to_fields fs) ≡ fs
of_to_fields [] = refl
of_to_fields ((k, v) ∷ fs) = ap (λ gs. (k, v) ∷ gs) (of_to_fields fs)

abbrev pub fields_of : Tree → List (String × Tree)
fields_of (object fs) = of_fields fs
fields_of _ = []

abbrev pub found : Option Tree → Result Tree
found none = err (json_exception "out_of_range")
found (some v) = ok v

abbrev pub tree_string : Tree → Result String
tree_string (string s) = ok s
tree_string _ = err (json_exception "type_error")

abbrev pub tree_int : Tree → Result ℤ
tree_int (number n) = ok n
tree_int _ = err (json_exception "type_error")

abbrev pub tree_elements : Tree → List Tree
tree_elements (array vs) = of_trees vs
tree_elements _ = []

abbrev pub tree_is_string : Tree → Bool
tree_is_string (string s) = true
tree_is_string _ = false

abbrev pub tree_is_array : Tree → Bool
tree_is_array (array vs) = true
tree_is_array _ = false

abbrev pub tree_is_object : Tree → Bool
tree_is_object (object fs) = true
tree_is_object _ = false

abbrev pub trees : Json
trees = record {
  Text = Tree;
  Value = Tree;
  null = null;
  string = string;
  number = number;
  array = λ vs. array (to_trees vs);
  object = λ fs. object (to_fields fs);
  parse = ok;
  dump = λ v. v;
  is_string = tree_is_string;
  is_array = tree_is_array;
  is_object = tree_is_object;
  contains = λ v key. is_some (entry (fields_of v) key);
  at_key = λ v key. found (entry (fields_of v) key);
  get_string = tree_string;
  get_int = tree_int;
  elements = tree_elements;
  parse-dump = λ v. refl;
  is_string-string = λ s. refl;
  is_array-array = λ vs. refl;
  is_object-object = λ fs. refl;
  contains-object = λ fs key. rw (of_to_fields fs) refl;
  at_key-object = λ fs key v e. rw (of_to_fields fs, e) refl;
  get_string-string = λ s. refl;
  get_int-number = λ n. refl;
  elements-array = of_to_trees;
}
