-- ===== src/Server/Monitor.antt =====
-- `_server_task` of src/ds_usr_prompt_handler.c as a sequence of passes of its loop, with the calls of
-- `stop_usr_prompt_monitor` from the main thread in between, and `start_usr_prompt_monitor`.
use deepstream_fpfilter.Prelude.{
  ℕ, Bool, true, false, not, List, [], ◌∷◌, if◌then◌else◌, Run, done, ◌>>=◌,
}
use deepstream_fpfilter.Wire.Socket.{Sockets}
use deepstream_fpfilter.Wire.Frame.{packet_buffer}
use deepstream_fpfilter.Server.Read.{read_message}

-- Where the thread of the server is: in its loop, behind it (or not started yet), ended as the port is
-- taken, or the whole process has called `exit`. There is one thread: a start while one serves, which
-- would be a second, is left out.
pub data Stage : Type 0 where
  serving returned bind_failed exited : Stage

pub record Server (State : Type 0) : Type 0 where
  pub g_server_port : ℕ
  pub g_stop_server : Bool
  pub stage : Stage
  -- what the callback changes
  pub state : State

-- What `accept` gives on a socket that does not block.
pub data Accepted (Conn : Type 0) : Type 0 where
  would_block : Accepted Conn
  accept_failed : Accepted Conn
  connected : Conn → Accepted Conn

pub data Event (Conn : Type 0) : Type 0 where
  -- a call of `stop_usr_prompt_monitor`
  stops : Event Conn
  -- a pass of the loop, from the read of the flag on
  passes : Accepted Conn → Event Conn

abbrev pub default_monitor_port : ℕ
default_monitor_port = 43434

module _ {State : Type 0} where
  unfoldable pub stop_usr_prompt_monitor : Server State → Server State
  stop_usr_prompt_monitor s = record s { g_stop_server = true }

  -- The setting up of the socket, by what `socket`, `bind` and `listen` answer.
  unfoldable pub open_socket : Bool → Bool → Bool → Server State → Server State
  open_socket socket_ok bind_ok listen_ok s =
      if not socket_ok
      then record s { stage = exited }
      else if not bind_ok
      then record s { stage = bind_failed }
      else if not listen_ok
      then record s { stage = exited }
      else record s { stage = serving }

  -- Where no thread serves.
  unfoldable pub start_usr_prompt_monitor : Bool → Bool → Bool → Server State → Server State
  unfolding open_socket
  start_usr_prompt_monitor socket_ok bind_ok listen_ok s =
      open_socket socket_ok bind_ok listen_ok
        (record s { g_stop_server = false; g_server_port = default_monitor_port })

module _ (S : Sockets) {State : Type 0} (fuel : ℕ) (msg_cb : List ℕ → ℕ → State → Run State) where
  -- A pass of the loop where the flag is not set.
  unfoldable pub serve : Accepted S.Conn → Server State → Run (Server State)
  serve would_block s = done s
  serve accept_failed s = done (record s { stage = exited })
  serve (connected connfd) s = do
    (msg, msg_len, c) ← read_message S fuel connfd packet_buffer
    state ← msg_cb msg msg_len s.state
    done (record s { state = state })

  unfoldable pub server_step : Event S.Conn → Server State → Run (Server State)
  unfolding serve stop_usr_prompt_monitor
  server_step stops s = done (stop_usr_prompt_monitor s)
  server_step (passes r) s = elim s.stage [
    | serving ↦ if s.g_stop_server then done (record s { stage = returned }) else serve r s
    | returned ↦ done s
    | bind_failed ↦ done s
    | exited ↦ done s
  ]

  unfoldable pub server_task : List (Event S.Conn) → Server State → Run (Server State)
  unfolding server_step
  server_task [] s = done s
  server_task (e ∷ es) s = server_step e s >>= server_task es
