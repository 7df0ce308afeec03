-- ===== src/ResultHandler/Sample.antt =====
-- A small JSON for the examples: the parameter of the handler of results at concrete functions.
use asr_sdk_cpp.Base.{ℕ, Bool, true, false, List, [], ◌∷◌, Bytes, if◌then◌else◌}
use asr_sdk_cpp.Text
use asr_sdk_cpp.Text.{codes, equal}
use asr_sdk_cpp.RecognitionResult.{pos}
use asr_sdk_cpp.ResultHandler.{Json11}

mutual
  pub data Json : Type 0 where
    null : Json
    boolean : Bool → Json
    number : ℕ → Json
    text : Bytes → Json
    array : Items → Json
    object : Members → Json

  pub data Items : Type 0 where
    no_items : Items
    item : Json → Items → Items

  pub data Members : Type 0 where
    no_members : Members
    entry : Bytes → Json → Members → Members

unfoldable pub items_of : Items → List Json
items_of no_items = []
items_of (item j js) = j ∷ items_of js

unfoldable pub lookup : Members → Bytes → Json
lookup no_members k = null
lookup (entry j v ms) k = let rest = lookup ms k in if equal k j then v else rest

-- Two documents: a partial result, and a final one that is the last.
unfoldable pub document : Bytes → Json
document t =
    if equal t (codes "PARTIAL")
    then object (
        entry (codes "alternatives")
          (array (item (object (entry (codes "text") (text (codes "on")) no_members)) no_items))
          (entry (codes "final_result") (boolean false) no_members))
    else if equal t (codes "FINAL")
    then object (
        entry (codes "alternatives")
          (array (item (object (entry (codes "text") (text (codes "one")) no_members)) no_items))
          (entry (codes "final_result") (boolean true) no_members))
    else null

abbrev is_boolean : Json → Bool
is_boolean (boolean b) = true
is_boolean _ = false

abbrev is_a_number : Json → Bool
is_a_number (number n) = true
is_a_number _ = false

abbrev is_an_object : Json → Bool
is_an_object (object ms) = true
is_an_object _ = false

abbrev boolean_of : Json → Bool
boolean_of (boolean b) = b
boolean_of _ = false

abbrev number_of : Json → ℕ
number_of (number n) = n
number_of _ = 0

abbrev text_of : Json → Bytes
text_of (text t) = t
text_of _ = []

abbrev elements : Json → List Json
elements (array js) = items_of js
elements _ = []

abbrev has_entries : Json → Bool
has_entries (object (entry k v ms)) = true
has_entries _ = false

abbrev member_of : Json → Bytes → Json
member_of (object ms) k = lookup ms k
member_of _ k = null

-- Doubles are whole numbers here.
abbrev pub sample : Json11 Json ℕ ℕ
sample = record {
  json_parse = document;
  member = member_of;
  is_bool = is_boolean;
  is_number = is_a_number;
  is_object = is_an_object;
  bool_value = boolean_of;
  int_value = λ j. pos (number_of j);
  number_value = number_of;
  string_value = text_of;
  array_items = elements;
  has_object_items = has_entries;
  to_float = λ n. n;
  to_string = Text.to_string;
}
