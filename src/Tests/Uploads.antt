-- ===== src/Tests/Uploads.antt =====
-- Frames that are chosen and uploaded, from src/deepstream_fpfilter_app.c to src/ds_save_frame.c.
use deepstream_fpfilter.Prelude.{
  ℕ, ◌≡◌, refl, true, false, List, [], ◌∷◌, ◌++◌, arith, All, Returns, done, fault,
}
use deepstream_fpfilter.Prelude.Int.{pos}
use deepstream_fpfilter.Prelude.Text.{codes}
use deepstream_fpfilter.Frames.Meta.{NvDsUserMeta, NvDsFrameMeta, FrameInfo}
use deepstream_fpfilter.Frames.Doubles.{fractions, fractions-IsRounded}
use deepstream_fpfilter.Frames.Save.{Saved, save_frames_for_processing}
use deepstream_fpfilter.Frames.Selection.{
  IsLabelled, chosen, save_frames_for_processing_selects, save_frames_for_processing_stops,
  save_frames_for_processing_misreads,
}
use deepstream_fpfilter.Upload.Command.{save_command, full_command, save_command_whole}
use deepstream_fpfilter.Upload.Worker.{
  Pc, in_system, exited, at_queue_test, at_wait, stop_returned, queue_dropped, is_past_wait, System,
  start_save_frame_task, Action, worker_acts, main_acts, pushes, run, step, act, push,
  worker_step_at, main_step_at,
}
use deepstream_fpfilter.Upload.Order.{InOrder, commands, in_flight, run-InOrder}
use deepstream_fpfilter.Upload.Stop.{
  stop_save_frame_task_waits, exited_uploaded, queue_dropped_too_early, shutdown_completes,
}

abbrev label_of : ℕ → ℕ → NvDsUserMeta
label_of fp tp = record { meta_type = 7; user_meta_data = record { fp_count = fp; tp_count = tp } }

abbrev other_entry : NvDsUserMeta
other_entry = record { meta_type = 1; user_meta_data = record { fp_count = 900; tp_count = 0 } }

abbrev frame_with : ℕ → List NvDsUserMeta → NvDsFrameMeta
frame_with n ms = record {
  frame_num = pos n;
  obj_meta_list = [];
  pad_index = 0;
  frame_user_meta_list = ms;
}

-- Two false positives of three objects, then one of three.
abbrev pub batch : List NvDsFrameMeta
batch = frame_with 11 (other_entry ∷ label_of 2 1 ∷ []) ∷ frame_with 12 (label_of 1 2 ∷ []) ∷ []

abbrev pub nothing_saved : Saved
nothing_saved = record { frame_save_queue = []; fpfilter_image_cnt = 0 }

abbrev pub image : ℕ → FrameInfo
image n = record { source = codes "in.mp4"; frame_index = n; pad_index = 0 }

pub batch-IsLabelled : All (IsLabelled 7) batch
batch-IsLabelled = (
  record {
    others = other_entry ∷ [];
    label = label_of 2 1;
    entries = refl;
    typed = refl;
    only = ((λ e. omega arith), tt);
    fits = omega arith;
  },
  (
    record {
      others = [];
      label = label_of 1 2;
      entries = refl;
      typed = refl;
      only = tt;
      fits = omega arith;
    },
    tt,
  ),
)

save_frames_for_processing_selects_example :
    save_frames_for_processing fractions 7 (codes "in.mp4") (λ _. true) batch nothing_saved
    ≡ record { frame_save_queue = image 11 ∷ []; fpfilter_image_cnt = 1 }
unfolding chosen
save_frames_for_processing_selects_example =
    save_frames_for_processing_selects fractions fractions-IsRounded 7 (codes "in.mp4") (λ _. true)
      batch nothing_saved batch-IsLabelled (omega arith)

save_frames_for_processing_stops_example :
    save_frames_for_processing fractions 7
      (codes "in.mp4")
      (λ _. true)
      (batch ++ (frame_with 13 [] ∷ frame_with 14 (label_of 9 0 ∷ []) ∷ []))
      nothing_saved
    ≡ save_frames_for_processing fractions 7 (codes "in.mp4") (λ _. true) batch nothing_saved
save_frames_for_processing_stops_example =
    save_frames_for_processing_stops fractions 7 (codes "in.mp4") (λ _. true) batch
      (frame_with 13 []) (frame_with 14 (label_of 9 0 ∷ []) ∷ []) nothing_saved refl

save_frames_for_processing_misreads_example :
    save_frames_for_processing fractions 7
      (codes "in.mp4")
      (λ _. true)
      (frame_with 15 (label_of 0 5 ∷ other_entry ∷ []) ∷ [])
      nothing_saved
    ≡ save_frames_for_processing fractions 7
        (codes "in.mp4")
        (λ _. true)
        (frame_with 15 (other_entry ∷ []) ∷ [])
        nothing_saved
save_frames_for_processing_misreads_example =
    save_frames_for_processing_misreads fractions 7 (codes "in.mp4") (λ _. true) (frame_with 15 [])
      (label_of 0 5 ∷ []) [] other_entry nothing_saved

save_command_whole_example : save_command (image 11) ≡ full_command (image 11)
save_command_whole_example = save_command_whole (image 11) (omega arith) (omega arith) (omega arith)

-- Two frames are pushed, the thread takes the first, and `main` begins to stop.
abbrev some_acts : List Action
some_acts =
    pushes (image 11) ∷ worker_acts ∷ pushes (image 12) ∷ worker_acts ∷ worker_acts ∷ main_acts ∷ []

run-InOrder_example : Returns InOrder (run (start_save_frame_task []) some_acts)
run-InOrder_example = run-InOrder [] some_acts

abbrev stopping_acts : List Action
stopping_acts =
    pushes (image 11) ∷ worker_acts ∷ worker_acts ∷ worker_acts ∷ main_acts ∷ main_acts ∷ []

stop_save_frame_task_waits_example :
    Returns
      (λ s.
        is_past_wait s.main ≡ true
        → (rest : List (List ℕ)) × (s.uploaded ++ commands (in_flight s.worker)
            ≡ commands s.early ++ rest))
      (run (start_save_frame_task []) stopping_acts)
stop_save_frame_task_waits_example = stop_save_frame_task_waits [] stopping_acts

-- The same until the thread has run the command and has seen the request to stop.
abbrev ending_acts : List Action
ending_acts =
    stopping_acts ++ (worker_acts ∷ main_acts ∷ worker_acts ∷ worker_acts ∷ worker_acts ∷ [])

exited_uploaded_example :
    Returns
      (λ s.
        s.worker ≡ exited
        → (is_past_wait s.main ≡ true)
          × ((rest : List (List ℕ)) × (s.uploaded ≡ commands s.early ++ rest)))
      (run (start_save_frame_task []) ending_acts)
exited_uploaded_example = exited_uploaded [] ending_acts

-- In that run the thread has ended with the command run.
ending_runs :
    Returns
      (λ s. (s.worker ≡ exited) × (s.uploaded ≡ commands (image 11 ∷ [])))
      (run (start_save_frame_task []) ending_acts)
unfolding run step act push start_save_frame_task worker_step_at main_step_at
ending_runs = (refl, refl)

abbrev waiting : Pc → List FrameInfo → System
waiting pc queue = record {
  g_stop_save_frame_thread = false;
  g_frames_queue = queue;
  queue_alive = true;
  worker = pc;
  main = at_wait;
  uploaded = [];
  early = image 11 ∷ [];
  late = [];
}

queue_dropped_too_early_example :
    (t : System) × (run (waiting (in_system (image 11)) []) (main_acts ∷ main_acts ∷ main_acts ∷ [])
      ≡ done t)
    × (t.main ≡ queue_dropped)
    × (t.uploaded ≡ [])
    × (t.worker ≡ in_system (image 11))
    × (run t (worker_acts ∷ worker_acts ∷ []) ≡ fault)
    × (run t (pushes (image 12) ∷ []) ≡ fault)
queue_dropped_too_early_example =
    queue_dropped_too_early (waiting (in_system (image 11)) []) (image 11) (image 12) refl refl refl
      refl

shutdown_completes_example :
    (t : System) × (run (waiting at_queue_test (image 11 ∷ [])) (
        worker_acts ∷ worker_acts ∷ worker_acts ∷ main_acts ∷ main_acts ∷ worker_acts ∷ worker_acts
        ∷ worker_acts ∷ [])
      ≡ done t)
    × (t.main ≡ stop_returned)
    × (t.worker ≡ exited)
    × (t.queue_alive ≡ true)
    × (t.g_frames_queue ≡ [])
    × (t.uploaded ≡ commands (image 11 ∷ []))
shutdown_completes_example =
    shutdown_completes (waiting at_queue_test (image 11 ∷ [])) refl refl refl
