-- ===== src/Prompt/Conversation.antt =====
-- The prompt server with `handle_usr_prompt` as its callback, as `main` starts it.
use deepstream_fpfilter.Prelude.{
  ℕ, zero, suc, ◌<◌, ◌≤◌, ◌≡◌, ◌≢◌, replicate, arith, refl, sym, ap, ◌∙◌, ◌⊎◌, inl, inr, true,
  Option, none, some, List, [], ◌∷◌, ◌++◌, length, drop, Run, done, fault, spent, ◌>>=◌,
}
use deepstream_fpfilter.Wire.Socket.{Sockets, IsReliable}
use deepstream_fpfilter.Wire.Frame.{max_packet_len, packet_buffer}
use deepstream_fpfilter.Server.Monitor.{
  Server, Event, serving, exited, server_task, start_usr_prompt_monitor,
}
use deepstream_fpfilter.Server.Service.{
  Told, quiet, prompt, stop, CarriesAll, deliver, start_usr_prompt_monitor-deliver,
}
use deepstream_fpfilter.Control.MainLoop.{MainLoop}
use deepstream_fpfilter.Pipeline.Gst.{Gst}
use deepstream_fpfilter.Control.App.{App}
use deepstream_fpfilter.Prompt.Json.{JsonGlib}
use deepstream_fpfilter.Prompt.Handle.{is_terminated, handle_usr_prompt}
use deepstream_fpfilter.Prompt.Command.{Command, perform}
use deepstream_fpfilter.Prompt.Message.{
  IsMessage, IsMalformed, perform_all, handle_usr_prompt-IsMessage, handle_usr_prompt-IsMalformed,
}

padded_terminated :
    (p : List ℕ) (n : ℕ)
    → length p < n
    → is_terminated (p ++ drop (length p) (replicate n 0)) ≡ true
padded_terminated p zero h = absurd (omega arith)
padded_terminated [] (suc n) h = refl
padded_terminated (x ∷ p) (suc n) h = let rest = padded_terminated p n (omega arith) in ground arith

-- A prompt of less than 4096 bytes leaves a zero byte in the buffer.
prompt_terminated :
    (p : List ℕ) → length p < 4096 → is_terminated (p ++ drop (length p) packet_buffer) ≡ true
unfolding packet_buffer
prompt_terminated p h = padded_terminated p max_packet_len h

module _ (J : JsonGlib) where
  -- What the server is told, in prompts of less than 4096 bytes, asks for these commands, and then
  -- possibly to stop.
  abbrev Asks : List Told → List (Option Command) → Type 0
  Asks [] cs = cs ≡ []
  Asks (quiet ∷ ts) cs = Asks ts cs
  Asks (stop ∷ ts) cs = cs ≡ []
  Asks (prompt payload ∷ ts) cs =
      let msg = payload ++ drop (length payload) packet_buffer in
      (length payload < 4096)
      × (now : List (Option Command)) × (later : List (Option Command)) × (cs ≡ now ++ later)
      × (IsMessage J msg (length payload) now ⊎ (IsMalformed J msg (length payload) × (now ≡ [])))
      × Asks ts later

module _ (J : JsonGlib) (G : Gst) (M : MainLoop) (create : G.World → Run (ℕ × G.World)) where
  glue :
      (f m g : App G.World M.Loop → Run (App G.World M.Loop))
      → ((b : App G.World M.Loop) → (f b >>= m) ≡ g b)
      → (r : Run (App G.World M.Loop)) → ((r >>= f) >>= m) ≡ (r >>= g)
  glue f m g h (done b) = h b
  glue f m g h fault = refl
  glue f m g h spent = refl

  perform_all-append :
      (now later : List (Option Command)) (a : App G.World M.Loop)
      → (perform_all G M create now a >>= perform_all G M create later)
        ≡ perform_all G M create (now ++ later) a
  perform_all-append [] later a = refl
  perform_all-append (none ∷ now) later a = perform_all-append now later a
  perform_all-append (some c ∷ now) later a =
      glue _ _ _ (λ b. perform_all-append now later b) (perform G M create c a)

  bind_same :
      {f g : App G.World M.Loop → Run (App G.World M.Loop)}
      → ((b : App G.World M.Loop) → f b ≡ g b)
      → (r : Run (App G.World M.Loop)) → (r >>= f) ≡ (r >>= g)
  bind_same h r = λ i. r >>= λ b. h b i

  deliver-Asks :
      (ts : List Told) (cs : List (Option Command)) (a : App G.World M.Loop)
      → Asks J ts cs
      → deliver (handle_usr_prompt J G M create) ts a ≡ perform_all G M create cs a
  deliver-Asks [] cs a e = rw e refl
  deliver-Asks (quiet ∷ ts) cs a h = deliver-Asks ts cs a h
  deliver-Asks (stop ∷ ts) cs a e = rw e refl
  deliver-Asks (prompt payload ∷ ts) cs a (short, now, later, e, m, h) =
      bind_same (λ b. deliver-Asks ts later b h)
        (handle_usr_prompt J G M create msg (length payload) a)
      ∙ ap (λ r. r >>= perform_all G M create later) (handled m)
      ∙ perform_all-append now later a
      ∙ ap (λ c. perform_all G M create c a) (sym e)
    where
      msg : List ℕ
      msg = payload ++ drop (length payload) packet_buffer

      handled :
          IsMessage J msg (length payload) now ⊎ (IsMalformed J msg (length payload) × (now ≡ []))
          → handle_usr_prompt J G M create msg (length payload) a ≡ perform_all G M create now a
      handled (inl u) =
          handle_usr_prompt-IsMessage J G M create msg (length payload) now a
            (prompt_terminated payload short) u
      handled (inr (u, none_now)) =
          handle_usr_prompt-IsMalformed J G M create msg (length payload) a
            (prompt_terminated payload short) u
          ∙ rw none_now refl

  -- With the monitor started where no thread of an earlier run still serves, the commands that all
  -- the prompts up to the next request to stop ask for are performed on the application in their
  -- order, each once, over reliable connections that each begin with the frame of a prompt of less
  -- than 4096 bytes; a malformed prompt asks for none.
  pub monitor-perform_all :
      (S : Sockets) (R : IsReliable S) (fuel : ℕ) (es : List (Event S.Conn)) (ts : List Told)
      (cs : List (Option Command)) (s : Server (App G.World M.Loop))
      → s.stage ≢ serving
      → s.stage ≢ exited
      → CarriesAll S es ts
      → Asks J ts cs
      → 4096 ≤ fuel
      → (server_task S fuel
            (handle_usr_prompt J G M create)
            es
            (start_usr_prompt_monitor true true true s)
          >>= λ s'. done s'.state)
        ≡ perform_all G M create cs s.state
  monitor-perform_all S R fuel es ts cs s idle runs c h g =
      start_usr_prompt_monitor-deliver S R fuel (handle_usr_prompt J G M create) true true true es
        ts s idle runs c g
      ∙ deliver-Asks ts cs s.state h
