-- ===== src/Prompt/Message.antt =====
-- Whole messages: what `handle_usr_prompt` does with an array of elements, and with a malformed
-- message.
use deepstream_fpfilter.Prelude.{
  ℕ, zero, suc, ◌+◌, ◌≡◌, refl, inl, inr, Bool, true, false, Option, none, some, Option-cases,
  String, List, [], ◌∷◌, length, if◌then◌else◌, arith, Run, Returns, done, fault, spent, ◌>>=◌,
}
use deepstream_fpfilter.Control.MainLoop.{MainLoop}
use deepstream_fpfilter.Pipeline.Gst.{Gst}
use deepstream_fpfilter.Prompt.Json.{JsonGlib}
use deepstream_fpfilter.Prompt.Handle.{
  act, handle_element, handle_elements, is_terminated, handle_text, handle_usr_prompt,
}
use deepstream_fpfilter.Prompt.Command.{
  Command, Requests, perform, handle_element_requested, handle_element_ignored,
}
use deepstream_fpfilter.Control.App.{
  App, disable_fpfilter_images_save, enable_fpfilter_images_save_duration,
}
use deepstream_fpfilter.Control.Consistent.{
  IsConsistent, enable_fpfilter-IsConsistent, disable_fpfilter-IsConsistent,
}

module _ (J : JsonGlib) where
  -- An element asks for the command, or for none.
  abbrev Reads : Option J.Object → Option Command → Type 0
  Reads o (some c) = Requests J o c
  Reads o none = (c : Command) → ¬ Requests J o c

  -- The elements from `idx` on ask for these.
  abbrev ReadsFrom : J.Array → ℕ → List (Option Command) → Type 0
  ReadsFrom arr idx [] = Unit
  ReadsFrom arr idx (c ∷ cs) = Reads (J.get_object_element arr idx) c × ReadsFrom arr (idx + 1) cs

  -- The text is an object whose member "message" is an array that asks for these.
  pub record IsMessage (msg : List ℕ) (len : ℕ) (cs : List (Option Command)) : Type 0 where
    pub root_node : J.Node
    pub root_object : J.Object
    pub arr : J.Array
    pub parses : J.load_from_data msg len ≡ some root_node
    pub holds_object : J.get_object root_node ≡ some root_object
    pub has_message : J.has_member (some root_object) "message" ≡ true
    pub holds_array : J.get_array (J.get_member root_object "message") ≡ some arr
    pub counted : J.get_length arr ≡ length cs
    pub reads : ReadsFrom arr 0 cs

  -- The ways in which a text is no message.
  pub data IsMalformed (msg : List ℕ) (len : ℕ) : Type 0 where
    no_parse : J.load_from_data msg len ≡ none → IsMalformed msg len
    no_object :
        {root_node : J.Node}
        → J.load_from_data msg len ≡ some root_node
        → J.get_object root_node ≡ none
        → IsMalformed msg len
    no_message :
        {root_node : J.Node} {root_object : J.Object}
        → J.load_from_data msg len ≡ some root_node
        → J.get_object root_node ≡ some root_object
        → J.has_member (some root_object) "message" ≡ false
        → IsMalformed msg len
    no_array :
        {root_node : J.Node} {root_object : J.Object}
        → J.load_from_data msg len ≡ some root_node
        → J.get_object root_node ≡ some root_object
        → J.has_member (some root_object) "message" ≡ true
        → J.get_array (J.get_member root_object "message") ≡ none
        → IsMalformed msg len

module _ (G : Gst) (M : MainLoop) (create : G.World → Run (ℕ × G.World)) where
  abbrev pub perform_all : List (Option Command) → App G.World M.Loop → Run (App G.World M.Loop)
  perform_all [] a = done a
  perform_all (none ∷ cs) a = perform_all cs a
  perform_all (some c ∷ cs) a = perform G M create c a >>= perform_all cs

module _ (J : JsonGlib) (G : Gst) (M : MainLoop) (create : G.World → Run (ℕ × G.World)) where
  bind_cong :
      {m n : Run (App G.World M.Loop)} {f g : App G.World M.Loop → Run (App G.World M.Loop)}
      → m ≡ n
      → ((a : App G.World M.Loop) → f a ≡ g a)
      → (m >>= f) ≡ (n >>= g)
  bind_cong e h = λ i. e i >>= λ a. h a i

  handle_elements_lem :
      (arr : J.Array) (idx : ℕ) (cs : List (Option Command)) (a : App G.World M.Loop)
      → ReadsFrom J arr idx cs
      → handle_elements J G M create arr idx (length cs) a ≡ perform_all G M create cs a
  unfolding handle_elements
  handle_elements_lem arr idx [] a r = refl
  handle_elements_lem arr idx (none ∷ cs) a (r, rs) =
      bind_cong (handle_element_ignored J G M create (J.get_object_element arr idx) a r)
        (λ b. handle_elements_lem arr (idx + 1) cs b rs)
  handle_elements_lem arr idx (some c ∷ cs) a (r, rs) =
      bind_cong (handle_element_requested J G M create (J.get_object_element arr idx) c a r)
        (λ b. handle_elements_lem arr (idx + 1) cs b rs)

  -- A message in a buffer with a zero byte is carried out: the commands that its elements ask for
  -- are performed in the order of the array, each once, an element that asks for none is passed
  -- over, and the rest goes on as if it were not there.
  pub handle_usr_prompt-IsMessage :
      (msg : List ℕ) (len : ℕ) (cs : List (Option Command)) (a : App G.World M.Loop)
      → is_terminated msg ≡ true
      → IsMessage J msg len cs
      → handle_usr_prompt J G M create msg len a ≡ perform_all G M create cs a
  unfolding handle_usr_prompt
  handle_usr_prompt-IsMessage msg len cs a ends m =
      rw
        (
          handle_usr_prompt, ends, handle_text, m.parses, m.holds_object, m.has_message,
          m.holds_array, m.counted,
        )
        (handle_elements_lem m.arr 0 cs a m.reads)

  -- In a buffer with a zero byte, a text that does not parse, is no object, has no member "message"
  -- or has one that is no array changes nothing.
  pub handle_usr_prompt-IsMalformed :
      (msg : List ℕ) (len : ℕ) (a : App G.World M.Loop)
      → is_terminated msg ≡ true
      → IsMalformed J msg len
      → handle_usr_prompt J G M create msg len a ≡ done a
  unfolding handle_usr_prompt
  handle_usr_prompt-IsMalformed msg len a ends (no_parse p) =
      rw (handle_usr_prompt, ends, handle_text, p) refl
  handle_usr_prompt-IsMalformed msg len a ends (no_object p q) =
      rw (handle_usr_prompt, ends, handle_text, p, q) refl
  handle_usr_prompt-IsMalformed msg len a ends (no_message p q r) =
      rw (handle_usr_prompt, ends, handle_text, p, q, r) refl
  handle_usr_prompt-IsMalformed msg len a ends (no_array p q r t) =
      rw (handle_usr_prompt, ends, handle_text, p, q, r, t) refl

  if-IsConsistent :
      (b : Bool) (m n : Run (App G.World M.Loop))
      → Returns IsConsistent m
      → Returns IsConsistent n
      → Returns IsConsistent (if b then m else n)
  if-IsConsistent true m n u v = u
  if-IsConsistent false m n u v = v

  act-IsConsistent :
      (o : Option J.Object) (action : Option String) (a : App G.World M.Loop)
      → IsConsistent a
      → Returns IsConsistent (act J G M create o action a)
  unfolding act disable_fpfilter_images_save enable_fpfilter_images_save_duration
  act-IsConsistent o action a v =
      ground (
        arith,
        enable_fpfilter-IsConsistent G create a v,
        disable_fpfilter-IsConsistent G create a v,
      )

  handle_element-IsConsistent :
      (o : Option J.Object) (a : App G.World M.Loop)
      → IsConsistent a
      → Returns IsConsistent (handle_element J G M create o a)
  unfolding handle_element
  handle_element-IsConsistent o a v =
      ground (arith, act-IsConsistent o (J.get_string_member o "action") a v)

  bind-IsConsistent :
      (m : Run (App G.World M.Loop)) (f : App G.World M.Loop → Run (App G.World M.Loop))
      → Returns IsConsistent m
      → ((a : App G.World M.Loop) → IsConsistent a → Returns IsConsistent (f a))
      → Returns IsConsistent (m >>= f)
  bind-IsConsistent (done a) f v h = h a v
  bind-IsConsistent fault f v h = tt
  bind-IsConsistent spent f v h = tt

  handle_elements-IsConsistent :
      (arr : J.Array) (idx n : ℕ) (a : App G.World M.Loop)
      → IsConsistent a
      → Returns IsConsistent (handle_elements J G M create arr idx n a)
  unfolding handle_elements
  handle_elements-IsConsistent arr idx zero a v = v
  handle_elements-IsConsistent arr idx (suc n) a v =
      bind-IsConsistent (handle_element J G M create (J.get_object_element arr idx) a) _
        (handle_element-IsConsistent (J.get_object_element arr idx) a v)
        (λ b u. handle_elements-IsConsistent arr (idx + 1) n b u)

  handle_text-IsConsistent :
      (msg : List ℕ) (len : ℕ) (a : App G.World M.Loop)
      → IsConsistent a
      → Returns IsConsistent (handle_text J G M create msg len a)
  unfolding handle_text
  handle_text-IsConsistent msg len a v = elim (Option-cases (J.load_from_data msg len)) [
    | inl p ↦ rw (handle_text, p) v
    | inr (root_node, p) ↦ elim (Option-cases (J.get_object root_node)) [
      | inl q ↦ rw (handle_text, p, q) v
      | inr (root_object, q) ↦
          rw (handle_text, p, q)
            (if-IsConsistent (J.has_member (some root_object) "message") _ (done a)
              (elim (Option-cases (J.get_array (J.get_member root_object "message"))) [
                | inl r ↦ rw r v
                | inr (arr, r) ↦ rw r (handle_elements-IsConsistent arr 0 (J.get_length arr) a v)
              ])
              v)
    ]
  ]

  -- Whatever the text, if the switch, the bin and the info agree before the message then they agree
  -- after it, where the handler comes back.
  pub handle_usr_prompt-IsConsistent :
      (msg : List ℕ) (len : ℕ) (a : App G.World M.Loop)
      → IsConsistent a
      → Returns IsConsistent (handle_usr_prompt J G M create msg len a)
  unfolding handle_usr_prompt
  handle_usr_prompt-IsConsistent msg len a v =
      if-IsConsistent (is_terminated msg) _ fault (handle_text-IsConsistent msg len a v) tt
