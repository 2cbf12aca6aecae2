-- ===== src/Tests/Letters.antt =====
-- A JSON library whose texts have one letter for each element of the message, for `handle_usr_prompt`
-- of src/deepstream_fpfilter_app.c.
use text.Mathlib.Text.{◌==◌ as str_eq}
use deepstream_fpfilter.Prelude.{
  ℕ, zero, suc, Bool, true, false, Option, none, some, String, List, [], ◌∷◌, map, length, take,
  ◌==◌, if◌then◌else◌,
}
use deepstream_fpfilter.Prelude.Int.{ℤ, pos}
use deepstream_fpfilter.Prompt.Json.{JsonGlib}

pub record Element : Type 0 where
  pub target : String
  pub action : String
  pub duration : Option ℤ

pub data Object : Type 0 where
  root : List Element → Object
  element : Element → Object

pub data Node : Type 0 where
  object : Object → Node
  array : List Element → Node

abbrev pub for_filter : String → Option ℤ → Element
for_filter action duration = record { target = "fpfilter"; action = action; duration = duration }

abbrev pub element_of : ℕ → Element
element_of letter =
    if letter == 101
    then for_filter "enable" none
    else if letter == 100
    then for_filter "disable" none
    else if letter == 116
    then for_filter "save-fp-enable" (some (pos 500))
    else record { target = "tracker"; action = "enable"; duration = none }

abbrev load : List ℕ → Option Node
load [] = none
load (letter ∷ letters) = some (object (root (map element_of (letter ∷ letters))))

abbrev pub get_object : Node → Option Object
get_object (object o) = some o
get_object (array es) = none

abbrev pub get_array : Node → Option (List Element)
get_array (object o) = none
get_array (array es) = some es

abbrev nth : List Element → ℕ → Option Object
nth [] n = none
nth (e ∷ es) zero = some (element e)
nth (e ∷ es) (suc n) = nth es n

abbrev is_some {ℓ} : {A : Type ℓ} → Option A → Bool
is_some none = false
is_some (some x) = true

abbrev pub has_member : Option Object → String → Bool
has_member none key = false
has_member (some (root es)) key = str_eq key "message"
has_member (some (element e)) key = if str_eq key "duration" then is_some e.duration else true

abbrev pub get_member : Object → String → Node
get_member (root es) key = array es
get_member (element e) key = object (element e)

abbrev pub get_string_member : Option Object → String → Option String
get_string_member none key = none
get_string_member (some (root es)) key = none
get_string_member (some (element e)) key =
    if str_eq key "target" then some e.target else some e.action

abbrev pub get_int_member : Option Object → String → ℤ
get_int_member (some (element (e))) key = elim e.duration [ none ↦ pos 0 | some d ↦ d ]
get_int_member _ key = pos 0

abbrev pub letters : JsonGlib
letters = record {
  Node = Node;
  Object = Object;
  Array = List Element;
  load_from_data = λ msg len. load (take len msg);
  get_object = get_object;
  get_array = get_array;
  get_length = length;
  get_object_element = nth;
  has_member = has_member;
  get_member = get_member;
  get_string_member = get_string_member;
  get_int_member = get_int_member;
}
