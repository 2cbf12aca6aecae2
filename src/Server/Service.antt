-- ===== src/Server/Service.antt =====
-- The server as its user sees it: the prompts arrive at the callback one by one until it is stopped.
use deepstream_fpfilter.Prelude.{
  ℕ, ◌≤◌, ◌≡◌, ◌≢◌, refl, ap, ◌∙◌, ◌⊎◌, inl, inr, Bool, true, false, ◌&&◌, List, [], ◌∷◌, ◌++◌,
  length, drop, if◌then◌else◌, arith, Run, done, fault, spent, ◌>>=◌,
}
use deepstream_fpfilter.Wire.Socket.{Sockets, IsReliable}
use deepstream_fpfilter.Wire.Frame.{frame, packet_buffer, length-packet_buffer}
use deepstream_fpfilter.Server.Message.{read_message-frame}
use deepstream_fpfilter.Server.Monitor.{
  Server, Stage, serving, returned, bind_failed, exited, Accepted, would_block, accept_failed,
  connected, Event, stops, passes, serve, server_step, server_task, stop_usr_prompt_monitor,
  start_usr_prompt_monitor, default_monitor_port,
}

-- What the outside does: nothing for a millisecond, a prompt, or the request to stop.
pub data Told : Type 0 where
  quiet : Told
  prompt : List ℕ → Told
  stop : Told

module _ (S : Sockets) where
  abbrev Carries : Event S.Conn → Told → Type 0
  Carries stops stop = Unit
  Carries (passes would_block) quiet = Unit
  Carries (passes (connected c)) (prompt payload) =
      (length payload ≤ 4096) × (rest : List ℕ) × (S.pending c ≡ frame payload ++ rest)
  Carries _ _ = ⊥

  abbrev pub CarriesAll : List (Event S.Conn) → List Told → Type 0
  CarriesAll [] [] = Unit
  CarriesAll (e ∷ es) (t ∷ ts) = Carries e t × CarriesAll es ts
  CarriesAll _ _ = ⊥

-- The stage behind a pass with the flag set.
abbrev left : Stage → Stage
left serving = returned
left returned = returned
left bind_failed = bind_failed
left exited = exited

module _ {State : Type 0} (msg_cb : List ℕ → ℕ → State → Run State) where
  -- Each prompt up to the first request to stop goes to the callback, in a buffer of 4096 bytes that
  -- is zero behind it.
  abbrev pub deliver : List Told → State → Run State
  deliver [] state = done state
  deliver (stop ∷ ts) state = done state
  deliver (quiet ∷ ts) state = deliver ts state
  deliver (prompt payload ∷ ts) state =
      msg_cb (payload ++ drop (length payload) packet_buffer) (length payload) state >>= deliver ts

module _ (S : Sockets) (R : IsReliable S) {State : Type 0} (fuel : ℕ)
    (msg_cb : List ℕ → ℕ → State → Run State) where
  abbrev state_after : List (Event S.Conn) → Server State → Run State
  state_after es s = server_task S fuel msg_cb es s >>= λ s'. done s'.state

  pass_serving :
      (r : Accepted S.Conn) (s : Server State)
      → s.stage ≡ serving
      → s.g_stop_server ≡ false
      → server_step S fuel msg_cb (passes r) s ≡ serve S fuel msg_cb r s
  unfolding server_step
  pass_serving r s h k = ground arith

  pass_stopped :
      (r : Accepted S.Conn) (s : Server State)
      → s.g_stop_server ≡ true
      → (t : Server State) × (server_step S fuel msg_cb (passes r) s ≡ done t)
        × (t.g_stop_server ≡ true)
        × (t.state ≡ s.state)
  unfolding server_step
  pass_stopped r s h = (record s { stage = left s.stage }, ground arith, h, refl)

  resume :
      (es : List (Event S.Conn)) (ts : List Told) (s : Server State)
      → ((x : State) → state_after es (record s { state = x }) ≡ deliver msg_cb ts x)
      → (m : Run State)
      → (((m >>= λ x. done (record s { state = x })) >>= server_task S fuel msg_cb es) >>= λ s'.
          done s'.state)
        ≡ (m >>= deliver msg_cb ts)
  resume es ts s h (done x) = h x
  resume es ts s h fault = refl
  resume es ts s h spent = refl

  -- Once the flag is set no prompt is handled any more.
  server_task_stopped :
      (es : List (Event S.Conn)) (s : Server State)
      → s.g_stop_server ≡ true
      → state_after es s ≡ done s.state
  unfolding server_task
  server_task_stopped [] s h = refl
  server_task_stopped (stops ∷ es) s h = server_task_stopped es (stop_usr_prompt_monitor s) refl
  server_task_stopped (passes r ∷ es) s h =
      let (t, e, h', same) = pass_stopped r s h in rw e (server_task_stopped es t h' ∙ ap done same)

  serve_prompt :
      (c : S.Conn) (payload rest : List ℕ) (s : Server State)
      → S.pending c ≡ frame payload ++ rest
      → length payload ≤ 4096
      → 4096 ≤ fuel
      → serve S fuel msg_cb (connected c) s ≡ (
          msg_cb (payload ++ drop (length payload) packet_buffer) (length payload) s.state
          >>= λ state. done (record s { state = state }))
  unfolding serve
  serve_prompt c payload rest s p small g =
      let (d, r, _) =
        read_message-frame S R fuel c packet_buffer payload rest p (rw length-packet_buffer small)
          (omega arith) (omega arith) (omega arith) in
      rw r refl

  pass_absent :
      (r : Accepted S.Conn) (s : Server State)
      → (s.stage ≡ bind_failed) ⊎ (s.stage ≡ exited)
      → server_step S fuel msg_cb (passes r) s ≡ done s
  unfolding server_step
  pass_absent r s (inl h) = ground arith
  pass_absent r s (inr h) = ground arith

  -- A server in its loop hands the prompts to the callback in the order in which they come, each once
  -- and whole, until it is asked to stop, and none after that; 4096 rounds for a read are enough.
  server_task-deliver :
      (es : List (Event S.Conn)) (ts : List Told) (s : Server State)
      → s.stage ≡ serving
      → s.g_stop_server ≡ false
      → CarriesAll S es ts
      → 4096 ≤ fuel
      → (server_task S fuel msg_cb es s >>= λ s'. done s'.state) ≡ deliver msg_cb ts s.state
  unfolding server_task
  server_task-deliver [] [] s h k c g = refl
  server_task-deliver [] (t ∷ ts) s h k c g = absurd c
  server_task-deliver (e ∷ es) [] s h k c g = absurd c
  server_task-deliver (stops ∷ es) (stop ∷ ts) s h k (_, cs) g =
      server_task_stopped es (stop_usr_prompt_monitor s) refl
  server_task-deliver (stops ∷ es) (quiet ∷ ts) s h k (c, cs) g = absurd c
  server_task-deliver (stops ∷ es) (prompt payload ∷ ts) s h k (c, cs) g = absurd c
  server_task-deliver (passes would_block ∷ es) (quiet ∷ ts) s h k (_, cs) g =
      rw (pass_serving would_block s h k) (server_task-deliver es ts s h k cs g)
  server_task-deliver (passes would_block ∷ es) (prompt payload ∷ ts) s h k (c, cs) g = absurd c
  server_task-deliver (passes would_block ∷ es) (stop ∷ ts) s h k (c, cs) g = absurd c
  server_task-deliver (passes accept_failed ∷ es) (quiet ∷ ts) s h k (c, cs) g = absurd c
  server_task-deliver (passes accept_failed ∷ es) (prompt payload ∷ ts) s h k (c, cs) g = absurd c
  server_task-deliver (passes accept_failed ∷ es) (stop ∷ ts) s h k (c, cs) g = absurd c
  server_task-deliver (passes (connected c) ∷ es) (quiet ∷ ts) s h k (d, cs) g = absurd d
  server_task-deliver (passes (connected c) ∷ es) (stop ∷ ts) s h k (d, cs) g = absurd d
  server_task-deliver (passes (connected c) ∷ es) (prompt payload ∷ ts) s h k ((small, rest, p), cs)
        g =
      rw (pass_serving (connected c) s h k ∙ serve_prompt c payload rest s p small g) (
        resume es ts s (λ x. server_task-deliver es ts (record s { state = x }) h k cs g)
          (msg_cb (payload ++ drop (length payload) packet_buffer) (length payload) s.state))

  server_task_absent :
      (es : List (Event S.Conn)) (s : Server State)
      → (s.stage ≡ bind_failed) ⊎ (s.stage ≡ exited)
      → state_after es s ≡ done s.state
  unfolding server_task
  server_task_absent [] s h = refl
  server_task_absent (stops ∷ es) s h = server_task_absent es (stop_usr_prompt_monitor s) h
  server_task_absent (passes r ∷ es) s (inl h) =
      rw (pass_absent r s (inl h)) (server_task_absent es s (inl h))
  server_task_absent (passes r ∷ es) s (inr h) =
      rw (pass_absent r s (inr h)) (server_task_absent es s (inr h))

  -- After `start_usr_prompt_monitor`, where no thread of an earlier run still serves and the
  -- process has not called `exit`, whatever else an earlier run left behind, the prompts up to the
  -- next request to stop are handed to the callback in order, each once and whole, if the socket is
  -- there, its port is free and it listens, and no prompt is ever handled if one of the three
  -- fails; 4096 rounds for a read are enough.
  pub start_usr_prompt_monitor-deliver :
      (socket_ok bind_ok listen_ok : Bool) (es : List (Event S.Conn)) (ts : List Told)
      (s : Server State)
      → s.stage ≢ serving
      → s.stage ≢ exited
      → CarriesAll S es ts
      → 4096 ≤ fuel
      → (server_task S fuel msg_cb es (start_usr_prompt_monitor socket_ok bind_ok listen_ok s)
          >>= λ s'. done s'.state)
        ≡ (if socket_ok && bind_ok && listen_ok then deliver msg_cb ts s.state else done s.state)
  unfolding start_usr_prompt_monitor
  start_usr_prompt_monitor-deliver true true true es ts s idle runs c g =
      server_task-deliver es ts
        (record s { g_stop_server = false; g_server_port = default_monitor_port; stage = serving })
        refl refl c g
  start_usr_prompt_monitor-deliver true true false es ts s idle runs c g =
      server_task_absent es
        (record s { g_stop_server = false; g_server_port = default_monitor_port; stage = exited })
        (inr refl)
  start_usr_prompt_monitor-deliver true false listen_ok es ts s idle runs c g =
      server_task_absent es
        (record s {
          g_stop_server = false;
          g_server_port = default_monitor_port;
          stage = bind_failed;
        })
        (inl refl)
  start_usr_prompt_monitor-deliver false bind_ok listen_ok es ts s idle runs c g =
      server_task_absent es
        (record s { g_stop_server = false; g_server_port = default_monitor_port; stage = exited })
        (inr refl)
