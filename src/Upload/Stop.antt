-- ===== src/Upload/Stop.antt =====
-- What `stop_save_frame_task` waits for, and what it does not.
use mathlib.Core.List.{append_assoc, append-nil}
use deepstream_fpfilter.Prelude.{
  ℕ, zero, suc, ◌+◌, ◌≡◌, refl, sym, ◌∙◌, ap, true, false, List, [], ◌∷◌, ◌++◌, length,
  length-append, length-map, arith, append-cut, done, fault, Returns, Returns-map,
}
use deepstream_fpfilter.Frames.Meta.{FrameInfo}
use deepstream_fpfilter.Upload.Command.{save_command}
use deepstream_fpfilter.Upload.Worker.{
  at_queue_test, in_system, exited, at_wait, stop_returned, queue_dropped, System,
  start_save_frame_task, is_past_wait, Action, worker_acts, main_acts, pushes, step, run,
}
use deepstream_fpfilter.Upload.Order.{in_flight, commands, Inv, run-Inv, start-Inv}

length-append_commands : (xs ys : List (List ℕ)) → length (xs ++ ys) ≡ length xs + length ys
length-append_commands = length-append

early_prefix :
    (s : System)
    → Inv s
    → is_past_wait s.main ≡ true
    → (rest : List (List ℕ)) × (s.uploaded ++ commands (in_flight s.worker)
        ≡ commands s.early ++ rest)
early_prefix s v past =
    let split : commands s.early ++ commands s.late
        ≡ (s.uploaded ++ commands (in_flight s.worker)) ++ commands s.g_frames_queue =
      v.in_order ∙ sym (append_assoc s.uploaded (commands (in_flight s.worker)) _) in
    (
      _,
      (append-cut (commands s.early) (commands s.late) (s.uploaded ++ commands (in_flight s.worker))
          (commands s.g_frames_queue) split
          (omega (
            arith,
            ap length split,
            length-append_commands,
            length-map s.g_frames_queue save_command,
            length-map s.late save_command,
            v.few_left past,
          ))).0,
    )

-- Once `main` has left the wait, in any interleaving, as long as the queue is not used once it is
-- dropped, the commands of all frames that were pushed before it did are among those run and the one
-- that runs: at most the last of them is unfinished.
pub stop_save_frame_task_waits :
    (queue : List FrameInfo) (acts : List Action)
    → Returns
        (λ s.
          is_past_wait s.main ≡ true
          → (rest : List (List ℕ)) × (s.uploaded ++ commands (in_flight s.worker)
              ≡ commands s.early ++ rest))
        (run (start_save_frame_task queue) acts)
stop_save_frame_task_waits queue acts =
    Returns-map Inv _ early_prefix (run (start_save_frame_task queue) acts)
      (run-Inv _ acts (start-Inv queue))

exited_prefix :
    (s : System)
    → Inv s
    → s.worker ≡ exited
    → (is_past_wait s.main ≡ true)
      × ((rest : List (List ℕ)) × (s.uploaded ≡ commands s.early ++ rest))
exited_prefix s v e =
    let past : is_past_wait s.main ≡ true = v.stop_past_wait (v.exited_stopped e) in
    let (rest, p) = early_prefix s v past in
    let idle : s.uploaded ++ commands (in_flight s.worker) ≡ s.uploaded =
      ap (λ w. s.uploaded ++ commands (in_flight w)) e ∙ append-nil s.uploaded in
    (past, (rest, sym idle ∙ p))

-- In any interleaving, as long as the queue is not used once it is dropped: when the upload thread has
-- ended, `main` has left the wait, and the commands of all frames that were pushed before it did have
-- been run, in order and before those of any frames pushed later.
pub exited_uploaded :
    (queue : List FrameInfo) (acts : List Action)
    → Returns
        (λ s.
          s.worker ≡ exited
          → (is_past_wait s.main ≡ true)
            × ((rest : List (List ℕ)) × (s.uploaded ≡ commands s.early ++ rest)))
        (run (start_save_frame_task queue) acts)
exited_uploaded queue acts =
    Returns-map Inv _ exited_prefix (run (start_save_frame_task queue) acts)
      (run-Inv _ acts (start-Inv queue))

-- While the command of the last frame still runs, `stop_save_frame_task` returns and `main` drops the
-- queue; when the command ends, the upload thread goes on to ask the freed queue for its length,
-- which is a fault, and so is the push of a frame by the stream, which still runs.
pub queue_dropped_too_early :
    (s : System) (f g : FrameInfo)
    → s.worker ≡ in_system f
    → s.g_frames_queue ≡ []
    → s.main ≡ at_wait
    → s.queue_alive ≡ true
    → (t : System) × (run s (main_acts ∷ main_acts ∷ main_acts ∷ []) ≡ done t)
      × (t.main ≡ queue_dropped)
      × (t.uploaded ≡ s.uploaded)
      × (t.worker ≡ in_system f)
      × (run t (worker_acts ∷ worker_acts ∷ []) ≡ fault)
      × (run t (pushes g ∷ []) ≡ fault)
unfolding run step
queue_dropped_too_early s f g w q m alive =
    let t : System = record s {
      g_stop_save_frame_thread = true;
      queue_alive = false;
      main = queue_dropped;
    } in
    (t, ground arith, refl, refl, w, ground arith, refl)

-- Three steps of the upload thread for each of `n` frames.
abbrev turns : ℕ → List Action
turns zero = []
turns (suc n) = worker_acts ∷ worker_acts ∷ worker_acts ∷ turns n

turn_lem :
    (s : System) (f : FrameInfo) (fs : List FrameInfo) (acts : List Action)
    → s.worker ≡ at_queue_test
    → s.main ≡ at_wait
    → s.g_frames_queue ≡ f ∷ fs
    → s.queue_alive ≡ true
    → run s (worker_acts ∷ worker_acts ∷ worker_acts ∷ acts)
      ≡ run (record s { g_frames_queue = fs; uploaded = s.uploaded ++ (save_command f ∷ []) }) acts
unfolding run step
turn_lem s f fs acts w m q alive = ground arith

drains :
    (fs : List FrameInfo) (s : System) (acts : List Action)
    → s.worker ≡ at_queue_test
    → s.main ≡ at_wait
    → s.g_frames_queue ≡ fs
    → s.queue_alive ≡ true
    → run s (turns (length fs) ++ acts)
      ≡ run (record s { g_frames_queue = []; uploaded = s.uploaded ++ commands fs }) acts
drains [] s acts w m q alive =
    let same : s ≡ record s { g_frames_queue = []; uploaded = s.uploaded ++ [] } =
      λ i. record s { g_frames_queue = q i; uploaded = sym (append-nil s.uploaded) i } in
    ap (λ t. run t acts) same
drains (f ∷ fs) s acts w m q alive =
    let s' : System = record s {
      g_frames_queue = fs;
      uploaded = s.uploaded ++ (save_command f ∷ []);
    } in
    turn_lem s f fs (turns (length fs) ++ acts) w m q alive
    ∙ drains fs s' acts w m refl alive
    ∙ ap (λ us. run (record s { g_frames_queue = []; uploaded = us }) acts)
        (append_assoc s.uploaded (save_command f ∷ []) (commands fs))

-- From a state where the upload thread tests the queue and `main` waits in `stop_save_frame_task`:
-- three steps of the thread for each frame in the queue, two of `main` and three of the thread run
-- the commands of all the frames, bring `stop_save_frame_task` to its return and the thread to its
-- end, while the queue is still there.
pub shutdown_completes :
    (s : System)
    → s.worker ≡ at_queue_test
    → s.main ≡ at_wait
    → s.queue_alive ≡ true
    → (t : System) × (run s (
          turns (length s.g_frames_queue)
          ++ (main_acts ∷ main_acts ∷ worker_acts ∷ worker_acts ∷ worker_acts ∷ []))
        ≡ done t)
      × (t.main ≡ stop_returned)
      × (t.worker ≡ exited)
      × (t.queue_alive ≡ true)
      × (t.g_frames_queue ≡ [])
      × (t.uploaded ≡ s.uploaded ++ commands s.g_frames_queue)
unfolding run step
shutdown_completes s w m alive =
    let last = main_acts ∷ main_acts ∷ worker_acts ∷ worker_acts ∷ worker_acts ∷ [] in
    let t : System = record s {
      g_stop_save_frame_thread = true;
      g_frames_queue = [];
      worker = exited;
      main = stop_returned;
      uploaded = s.uploaded ++ commands s.g_frames_queue;
    } in
    (t, drains s.g_frames_queue s last w m refl alive ∙ ground arith, refl, refl, alive, refl, refl)
