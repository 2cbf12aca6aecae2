-- ===== src/Upload/Order.antt =====
-- No frame is lost, reordered or uploaded twice, in any interleaving.
use mathlib.Core.List.{append-nil, append_assoc, map-append}
use deepstream_fpfilter.Prelude.{
  ℕ, ◌+◌, ◌≤◌, ◌≡◌, refl, sym, ap, ◌∙◌, true, false, List, [], ◌∷◌, ◌++◌, map, length,
  length-append, arith, Bool, if◌then◌else◌, if_cases, done, fault, Returns, Returns-bind,
  Returns-map,
}
use deepstream_fpfilter.Frames.Meta.{FrameInfo}
use deepstream_fpfilter.Upload.Command.{save_command}
use deepstream_fpfilter.Upload.Worker.{
  Pc, at_stop_test, at_queue_test, at_pop, in_system, in_usleep, exited, MainPc, in_loop, at_wait,
  at_set_stop, stop_returned, queue_dropped, returned, System, start_save_frame_task,
  worker_step_at, main_step_at, is_past_wait, push, Action, worker_acts, main_acts, pushes, act,
  is_returned, step, run,
}

-- The frame that the thread has popped and whose command still runs.
abbrev pub in_flight : Pc → List FrameInfo
in_flight (in_system f) = f ∷ []
in_flight _ = []

abbrev pub commands : List FrameInfo → List (List ℕ)
commands = map save_command

-- The commands of all frames pushed are those run, the one that runs and those that wait, in order.
abbrev pub InOrder : System → Type 0
InOrder s =
    commands s.early ++ commands s.late
    ≡ s.uploaded ++ (commands (in_flight s.worker) ++ commands s.g_frames_queue)

pub record Inv (s : System) : Type 0 where
  pub in_order : InOrder s
  none_late : is_past_wait s.main ≡ false → s.late ≡ []
  pub few_left : is_past_wait s.main ≡ true → length s.g_frames_queue ≤ length s.late
  pub stop_past_wait : s.g_stop_save_frame_thread ≡ true → is_past_wait s.main ≡ true
  pub exited_stopped : s.worker ≡ exited → s.g_stop_save_frame_thread ≡ true

pub start-Inv : (queue : List FrameInfo) → Inv (start_save_frame_task queue)
unfolding start_save_frame_task
start-Inv queue = ground (arith, append-nil (commands queue))

saved_one :
    (s : System) (f : FrameInfo)
    → (s.uploaded ++ (save_command f ∷ [])) ++ commands s.g_frames_queue
      ≡ s.uploaded ++ (save_command f ∷ commands s.g_frames_queue)
saved_one s f = append_assoc s.uploaded (save_command f ∷ []) (commands s.g_frames_queue)

-- Behind a test that the queue is there.
alive-Inv : (b : Bool) (t : System) → (b ≡ true → Inv t) → Returns Inv (if b then done t else fault)
alive-Inv true t h = h refl
alive-Inv false t h = tt

worker_step_at-Inv : (p : Pc) (s : System) → s.worker ≡ p → Inv s → Returns Inv (worker_step_at p s)
unfolding worker_step_at
worker_step_at-Inv at_stop_test s e v = ground arith
worker_step_at-Inv at_queue_test s e v = alive-Inv s.queue_alive _ (λ alive. ground arith)
worker_step_at-Inv at_pop s e v = alive-Inv s.queue_alive _ (λ alive. ground arith)
worker_step_at-Inv (in_system f) s e v = ground (arith, saved_one s f)
worker_step_at-Inv in_usleep s e v = ground arith
worker_step_at-Inv exited s e v = v

main_step_at-Inv : (p : MainPc) (s : System) → s.main ≡ p → Inv s → Inv (main_step_at p s)
unfolding main_step_at
main_step_at-Inv in_loop s e v = ground arith
main_step_at-Inv at_wait s e v = ground arith
main_step_at-Inv at_set_stop s e v = ground arith
main_step_at-Inv stop_returned s e v = ground arith
main_step_at-Inv queue_dropped s e v = ground arith
main_step_at-Inv returned s e v = v

-- One more command at both ends.
push_order :
    (a b u i q c : List (List ℕ)) → a ++ b ≡ u ++ (i ++ q) → a ++ (b ++ c) ≡ u ++ (i ++ (q ++ c))
push_order a b u i q c e =
    sym (append_assoc a b c)
    ∙ ap (λ xs. xs ++ c) e
    ∙ append_assoc u (i ++ q) c
    ∙ ap (◌++◌ u) (append_assoc i q c)

commands_append :
    (fs : List FrameInfo) (f : FrameInfo)
    → commands (fs ++ (f ∷ [])) ≡ commands fs ++ (save_command f ∷ [])
commands_append fs f = map-append save_command fs (f ∷ [])

length_push : (fs : List FrameInfo) (f : FrameInfo) → length (fs ++ (f ∷ [])) ≡ length fs + 1
length_push fs f = length-append fs (f ∷ [])

push-Inv : (f : FrameInfo) (s : System) → Inv s → Returns Inv (push f s)
unfolding push
push-Inv f s v = alive-Inv s.queue_alive _ (λ alive. ground (
  arith,
  commands_append s.early f,
  commands_append s.late f,
  commands_append s.g_frames_queue f,
  length_push s.g_frames_queue f,
  length_push s.late f,
  append-nil (commands s.early),
  append-nil (commands s.early ++ (save_command f ∷ [])),
  push_order (commands s.early) (commands s.late) s.uploaded (commands (in_flight s.worker))
      (commands s.g_frames_queue) (save_command f ∷ []) v.in_order,
))

act-Inv : (s : System) (a : Action) → Inv s → Returns Inv (act s a)
unfolding act
act-Inv s worker_acts v = worker_step_at-Inv s.worker s refl v
act-Inv s main_acts v = main_step_at-Inv s.main s refl v
act-Inv s (pushes f) v = push-Inv f s v

step-Inv : (s : System) (a : Action) → Inv s → Returns Inv (step s a)
unfolding step
step-Inv s a v = if_cases (Returns Inv) (is_returned s.main) _ _ (λ _. v) (λ _. act-Inv s a v)

pub run-Inv : (s : System) (acts : List Action) → Inv s → Returns Inv (run s acts)
unfolding run
run-Inv s [] v = v
run-Inv s (a ∷ acts) v =
    Returns-bind Inv Inv (λ t. run t acts) (step s a) (step-Inv s a v) (λ t u. run-Inv t acts u)

-- In every interleaving of the upload thread, of `main` from the end of its loop on, and of pushes,
-- from the start of the task on a queue, as long as the queue is not used once it is dropped: the
-- commands of the frames pushed, in the order of the pushes, are those that `system` has run, then the
-- one that it runs now, then those of the frames in the queue. So no frame is lost, uploaded twice
-- or out of its order.
pub run-InOrder :
    (queue : List FrameInfo) (acts : List Action)
    → Returns InOrder (run (start_save_frame_task queue) acts)
run-InOrder queue acts =
    Returns-map Inv InOrder (λ s v. v.in_order) (run (start_save_frame_task queue) acts)
      (run-Inv _ acts (start-Inv queue))
