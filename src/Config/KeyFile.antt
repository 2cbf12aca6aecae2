-- ===== src/Config/KeyFile.antt =====
-- The calls of GLib on key files that the application makes, and `realpath`, as parameters.
use deepstream_fpfilter.Prelude.{ℕ, Bool, Option, String, List}
use deepstream_fpfilter.Prelude.Int.{ℤ}

-- The reads of a value are `none` where the call sets the error.
pub record KeyFiles : Type 1 where
  pub File : Type 0
  -- `none` where `g_key_file_load_from_file` returns FALSE
  pub load_from_file : String → Option File
  pub has_group : File → String → Bool
  pub get_keys : File → String → Option (List String)
  pub has_key : File → String → String → Bool
  pub get_boolean : File → String → String → Option Bool
  pub get_integer : File → String → String → Option ℤ
  pub get_string : File → String → String → Option (List ℕ)
  -- the bytes of the path without links, or `none` for NULL
  pub realpath : String → Option (List ℕ)
