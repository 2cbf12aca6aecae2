-- ===== src/Upload/Worker.antt =====
-- `_save_frame_task`, `start_save_frame_task` and `stop_save_frame_task` of src/ds_save_frame.c,
-- with the end of `main` that calls the last, drops the queue and returns, which ends the process
-- with all its threads. To use the queue once it is dropped, and so freed, is a fault. A step is
-- what a thread does from one access to shared memory to the next; `g_stop_save_frame_thread` is
-- only touched under its mutex. `GAsyncQueue` is the sequence of the entries that are pushed and
-- not popped, as GLib documents it.
use deepstream_fpfilter.Prelude.{
  Bool, true, false, List, [], ◌∷◌, ◌++◌, if◌then◌else◌, ℕ, Run, done, fault, ◌>>=◌,
}
use deepstream_fpfilter.Frames.Meta.{FrameInfo}
use deepstream_fpfilter.Upload.Command.{save_command}

-- Where the upload thread stands: at the test of the outer loop, at that of the inner loop, at the
-- pop, in `system`, in `usleep`, or at its end.
pub data Pc : Type 0 where
  at_stop_test : Pc
  at_queue_test : Pc
  at_pop : Pc
  in_system : FrameInfo → Pc
  in_usleep : Pc
  exited : Pc

-- Where `main` stands: in `g_main_loop_run`, in the wait of `stop_save_frame_task`, at the write of the
-- flag, behind that call, behind `g_async_queue_unref`, behind its return.
pub data MainPc : Type 0 where
  in_loop : MainPc
  at_wait : MainPc
  at_set_stop : MainPc
  stop_returned : MainPc
  queue_dropped : MainPc
  returned : MainPc

pub record System : Type 0 where
  pub g_stop_save_frame_thread : Bool
  pub g_frames_queue : List FrameInfo
  pub queue_alive : Bool
  pub worker : Pc
  pub main : MainPc
  -- the commands that `system` has run
  pub uploaded : List (List ℕ)
  -- the frames pushed until `main` left its wait, and those pushed since
  pub early : List FrameInfo
  pub late : List FrameInfo

unfoldable pub start_save_frame_task : List FrameInfo → System
start_save_frame_task queue = record {
  g_stop_save_frame_thread = false;
  g_frames_queue = queue;
  queue_alive = true;
  worker = at_stop_test;
  main = in_loop;
  uploaded = [];
  early = queue;
  late = [];
}

-- A step of `_save_frame_task`. `g_async_queue_pop` waits on an empty queue.
unfoldable pub worker_step_at : Pc → System → Run System
worker_step_at at_stop_test s =
    done (record s { worker = if s.g_stop_save_frame_thread then exited else at_queue_test })
worker_step_at at_queue_test s =
    if s.queue_alive
    then done (elim s.g_frames_queue [
      | [] ↦ record s { worker = in_usleep }
      | f ∷ fs ↦ record s { worker = at_pop }
    ])
    else fault
worker_step_at at_pop s =
    if s.queue_alive
    then done (elim s.g_frames_queue [
      | [] ↦ s
      | f ∷ fs ↦ record s { g_frames_queue = fs; worker = in_system f }
    ])
    else fault
worker_step_at (in_system f) s =
    done (record s { uploaded = s.uploaded ++ (save_command f ∷ []); worker = at_queue_test })
worker_step_at in_usleep s = done (record s { worker = at_stop_test })
worker_step_at exited s = done s

-- A step of `main` from the end of its loop on: `stop_save_frame_task`, then `g_async_queue_unref`,
-- then its return.
unfoldable pub main_step_at : MainPc → System → System
main_step_at in_loop s = record s { main = at_wait }
main_step_at at_wait s = elim s.g_frames_queue [ [] ↦ record s { main = at_set_stop } | f ∷ fs ↦ s ]
main_step_at at_set_stop s = record s { g_stop_save_frame_thread = true; main = stop_returned }
main_step_at stop_returned s = record s { queue_alive = false; main = queue_dropped }
main_step_at queue_dropped s = record s { main = returned }
main_step_at returned s = s

abbrev pub is_past_wait : MainPc → Bool
is_past_wait in_loop = false
is_past_wait at_wait = false
is_past_wait _ = true

-- `g_async_queue_push` by the streaming thread, which runs until the pipeline is stopped.
unfoldable pub push : FrameInfo → System → Run System
push f s =
    if s.queue_alive
    then done (record s {
      g_frames_queue = s.g_frames_queue ++ (f ∷ []);
      early = if is_past_wait s.main then s.early else s.early ++ (f ∷ []);
      late = if is_past_wait s.main then s.late ++ (f ∷ []) else s.late;
    })
    else fault

pub data Action : Type 0 where
  worker_acts : Action
  main_acts : Action
  pushes : FrameInfo → Action

-- What a thread does, while the process runs.
unfoldable pub act : System → Action → Run System
unfolding worker_step_at main_step_at push
act s worker_acts = worker_step_at s.worker s
act s main_acts = done (main_step_at s.main s)
act s (pushes f) = push f s

abbrev pub is_returned : MainPc → Bool
is_returned returned = true
is_returned _ = false

unfoldable pub step : System → Action → Run System
unfolding act
step s a = if is_returned s.main then done s else act s a

-- Any interleaving of the three threads.
unfoldable pub run : System → List Action → Run System
run s [] = done s
run s (a ∷ as') = step s a >>= λ t. run t as'
