-- ===== src/Prompt/Json.antt =====
-- The calls of json-glib that the handler makes, as a parameter.
use deepstream_fpfilter.Prelude.{ℕ, Option, String, Bool, List}
use deepstream_fpfilter.Prelude.Int.{ℤ}

-- A null pointer is `none`.
pub record JsonGlib : Type 1 where
  pub Node : Type 0
  pub Object : Type 0
  pub Array : Type 0
  -- `json_parser_load_from_data` and `json_parser_get_root`; `none` if the text does not parse
  pub load_from_data : List ℕ → ℕ → Option Node
  -- `JSON_NODE_HOLDS_OBJECT` with `json_node_get_object`, and the same for arrays
  pub get_object : Node → Option Object
  pub get_array : Node → Option Array
  pub get_length : Array → ℕ
  -- `none` for an element that is no object
  pub get_object_element : Array → ℕ → Option Object
  -- FALSE for a null object
  pub has_member : Option Object → String → Bool
  pub get_member : Object → String → Node
  -- `none` for a member that is no string
  pub get_string_member : Option Object → String → Option String
  -- a `gint64`
  pub get_int_member : Option Object → String → ℤ
