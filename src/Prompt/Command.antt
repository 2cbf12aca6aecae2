-- ===== src/Prompt/Command.antt =====
-- What a message asks for, read off its members, and that the handler does just that.
use text.Mathlib.TextEquality.{eq_iff}
use deepstream_fpfilter.Prelude.{
  ℕ, ◌≡◌, refl, ap, ◌∙◌, inl, inr, true, false, Bool-cases, if_cases, Option, none, some, String,
  Run, done,
}
use deepstream_fpfilter.Prelude.Int.{guint_of}
use deepstream_fpfilter.Control.MainLoop.{MainLoop}
use deepstream_fpfilter.Pipeline.Gst.{Gst}
use deepstream_fpfilter.Prompt.Json.{JsonGlib}
use deepstream_fpfilter.Prompt.Handle.{same_text, act, handle_element}
use deepstream_fpfilter.Control.App.{
  App, enable_fpfilter, disable_fpfilter, enable_fpfilter_images_save, disable_fpfilter_images_save,
  enable_fpfilter_images_save_duration,
}

pub data Command : Type 0 where
  enable_filter : Command
  disable_filter : Command
  start_saving : Command
  start_saving_for : ℕ → Command
  stop_saving : Command

module _ (J : JsonGlib) where
  -- An element that is meant for the filter and names an action.
  pub record IsFor (o : Option J.Object) (action : String) : Type 0 where
    pub has_target : J.has_member o "target" ≡ true
    pub target : J.get_string_member o "target" ≡ some "fpfilter"
    pub has_action : J.has_member o "action" ≡ true
    pub named : J.get_string_member o "action" ≡ some action

  abbrev pub Requests : Option J.Object → Command → Type 0
  Requests o enable_filter = IsFor o "enable"
  Requests o disable_filter = IsFor o "disable"
  Requests o start_saving = IsFor o "save-fp-enable" × (J.has_member o "duration" ≡ false)
  Requests o (start_saving_for d) =
      IsFor o "save-fp-enable"
      × (J.has_member o "duration" ≡ true)
      × (guint_of (J.get_int_member o "duration") ≡ d)
  Requests o stop_saving = IsFor o "save-fp-disable"

module _ (G : Gst) (M : MainLoop) (create : G.World → Run (ℕ × G.World)) where
  abbrev pub perform : Command → App G.World M.Loop → Run (App G.World M.Loop)
  perform enable_filter a = enable_fpfilter G create a
  perform disable_filter a = done (disable_fpfilter G a)
  perform start_saving a = done (enable_fpfilter_images_save a)
  perform (start_saving_for d) a = done (enable_fpfilter_images_save_duration M d a)
  perform stop_saving a = done (disable_fpfilter_images_save a)

module _ (J : JsonGlib) (G : Gst) (M : MainLoop) (create : G.World → Run (ℕ × G.World)) where
  handle_element_for :
      (o : Option J.Object) (action : String) (a : App G.World M.Loop)
      → IsFor J o action
      → handle_element J G M create o a ≡ act J G M create o (some action) a
  unfolding handle_element
  handle_element_for o action a f = rw (f.has_target, f.target, f.has_action, f.named) refl

  pub handle_element_requested :
      (o : Option J.Object) (c : Command) (a : App G.World M.Loop)
      → Requests J o c
      → handle_element J G M create o a ≡ perform G M create c a
  unfolding act
  handle_element_requested o enable_filter a f = handle_element_for o "enable" a f
  handle_element_requested o disable_filter a f = handle_element_for o "disable" a f
  handle_element_requested o start_saving a (f, d) =
      handle_element_for o "save-fp-enable" a f ∙ rw d refl
  handle_element_requested o (start_saving_for d) a (f, h, e) =
      handle_element_for o "save-fp-enable" a f ∙ rw (h, e) refl
  handle_element_requested o stop_saving a f = handle_element_for o "save-fp-disable" a f

same_text→eq : (s : Option String) (t : String) → same_text s t ≡ true → s ≡ some t
same_text→eq none t h = cc
same_text→eq (some s) t h = ap some ((eq_iff s t).0 h)

module _ (J : JsonGlib) (G : Gst) (M : MainLoop) (create : G.World → Run (ℕ × G.World)) where
  -- An element for the filter whose action is none of the four is passed over.
  act_ignored :
      (o : Option J.Object) (a : App G.World M.Loop)
      → ((action : String) → J.get_string_member o "action" ≡ some action → IsFor J o action)
      → ((c : Command) → ¬ Requests J o c)
      → act J G M create o (J.get_string_member o "action") a ≡ done a
  unfolding act
  act_ignored o a f unasked =
      if_cases (λ r. r ≡ done a) (same_text s "enable") _ _
        (λ h. absurd (unasked enable_filter (f "enable" (same_text→eq s "enable" h))))
        (λ _.
          if_cases (λ r. r ≡ done a) (same_text s "disable") _ _
            (λ h. absurd (unasked disable_filter (f "disable" (same_text→eq s "disable" h))))
            (λ _.
              if_cases (λ r. r ≡ done a) (same_text s "save-fp-enable") _ _
                (λ h. absurd (saving (f "save-fp-enable" (same_text→eq s "save-fp-enable" h))))
                (λ _.
                  if_cases (λ r. r ≡ done a) (same_text s "save-fp-disable") _ _
                    (λ h. absurd (
                      unasked stop_saving
                        (f "save-fp-disable" (same_text→eq s "save-fp-disable" h))))
                    (λ _. refl))))
    where
      s : Option String
      s = J.get_string_member o "action"

      saving : ¬ IsFor J o "save-fp-enable"
      saving g = elim (Bool-cases (J.has_member o "duration")) [
        | inl h ↦ unasked (start_saving_for (guint_of (J.get_int_member o "duration"))) (g, h, refl)
        | inr h ↦ unasked start_saving (g, h)
      ]

  pub handle_element_ignored :
      (o : Option J.Object) (a : App G.World M.Loop)
      → ((c : Command) → ¬ Requests J o c)
      → handle_element J G M create o a ≡ done a
  unfolding handle_element
  handle_element_ignored o a unasked =
      if_cases (λ r. r ≡ done a) (J.has_member o "target") _ _
        (λ t.
          if_cases (λ r. r ≡ done a) (same_text (J.get_string_member o "target") "fpfilter") _ _
            (λ g.
              if_cases (λ r. r ≡ done a) (J.has_member o "action") _ _
                (λ h.
                  act_ignored o a
                    (λ action e. record {
                      has_target = t;
                      target = same_text→eq (J.get_string_member o "target") "fpfilter" g;
                      has_action = h;
                      named = e;
                    })
                    unasked)
                (λ _. refl))
            (λ _. refl))
        (λ _. refl)
