-- ===== src/Prompt/Handle.antt =====
-- The handler, from the bytes of a message to the changes of the application.
use text.Mathlib.Text.{◌==◌ as str_eq}
use deepstream_fpfilter.Prelude.{
  ℕ, zero, suc, ◌+◌, Bool, true, false, Option, none, some, String, List, [], ◌∷◌, ◌==◌,
  if◌then◌else◌, Run, done, fault, ◌>>=◌,
}
use deepstream_fpfilter.Prelude.Int.{guint_of}
use deepstream_fpfilter.Control.MainLoop.{MainLoop}
use deepstream_fpfilter.Pipeline.Gst.{Gst}
use deepstream_fpfilter.Prompt.Json.{JsonGlib}
use deepstream_fpfilter.Control.App.{
  App, enable_fpfilter, disable_fpfilter, enable_fpfilter_images_save, disable_fpfilter_images_save,
  enable_fpfilter_images_save_duration,
}

-- Whether there is a zero byte in the buffer, where a text in it ends.
abbrev pub is_terminated : List ℕ → Bool
is_terminated [] = false
is_terminated (b ∷ bs) = let rest = is_terminated bs in if b == 0 then true else rest

-- `!g_strcmp0(s, t)`, where `s` may be null
abbrev pub same_text : Option String → String → Bool
same_text none t = false
same_text (some s) t = str_eq s t

module _ (J : JsonGlib) (G : Gst) (M : MainLoop)
    (create_filter_elements_bin : G.World → Run (ℕ × G.World)) where
  -- The chain of tests on `action`.
  unfoldable pub act :
      Option J.Object → Option String → App G.World M.Loop → Run (App G.World M.Loop)
  act arr_obj action a =
      if same_text action "enable"
      then enable_fpfilter G create_filter_elements_bin a
      else if same_text action "disable"
      then done (disable_fpfilter G a)
      else if same_text action "save-fp-enable"
      then if J.has_member arr_obj "duration"
        then done (
            enable_fpfilter_images_save_duration M (guint_of (J.get_int_member arr_obj "duration"))
              a)
        else done (enable_fpfilter_images_save a)
      else if same_text action "save-fp-disable"
      then done (disable_fpfilter_images_save a)
      else done a

  -- The body of the loop; a `continue` is a branch that leaves the application as it is.
  unfoldable pub handle_element : Option J.Object → App G.World M.Loop → Run (App G.World M.Loop)
  unfolding act
  handle_element arr_obj a =
      if J.has_member arr_obj "target"
      then if same_text (J.get_string_member arr_obj "target") "fpfilter"
        then if J.has_member arr_obj "action"
          then act arr_obj (J.get_string_member arr_obj "action") a
          else done a
        else done a
      else done a

  -- The loop from `idx` on, over the `n` elements that are left.
  unfoldable pub handle_elements : J.Array → ℕ → ℕ → App G.World M.Loop → Run (App G.World M.Loop)
  unfolding handle_element
  handle_elements arr idx zero a = done a
  handle_elements arr idx (suc n) a =
      handle_element (J.get_object_element arr idx) a >>= handle_elements arr (idx + 1) n

  -- Behind the print of the text.
  unfoldable pub handle_text : List ℕ → ℕ → App G.World M.Loop → Run (App G.World M.Loop)
  unfolding handle_elements
  handle_text msg len a = elim (J.load_from_data msg len) [
    | none ↦ done a
    | some root_node ↦ elim (J.get_object root_node) [
      | none ↦ done a
      | some root_object ↦
          if J.has_member (some root_object) "message"
          then elim (J.get_array (J.get_member root_object "message")) [
            | none ↦ done a
            | some arr ↦ handle_elements arr 0 (J.get_length arr) a
          ]
          else done a
    ]
  ]

  -- The handler first prints `msg` as a text, and so reads on to a zero byte.
  unfoldable pub handle_usr_prompt : List ℕ → ℕ → App G.World M.Loop → Run (App G.World M.Loop)
  unfolding handle_text
  handle_usr_prompt msg len a = if is_terminated msg then handle_text msg len a else fault
