-- ===== src/Tests/Switches.antt =====
-- The switches of src/deepstream_fpfilter_app.c with a clock.
use deepstream_fpfilter.Prelude.{ℕ, ◌≡◌, refl, true, false, List, [], ◌∷◌, arith}
use deepstream_fpfilter.Pipeline.Graph.{Graph}
use deepstream_fpfilter.Control.MainLoop.{timers, timers-IsPrompt}
use deepstream_fpfilter.Control.App.{
  App, enable_fpfilter_images_save, enable_fpfilter_images_save_duration,
}
use deepstream_fpfilter.Control.Timers.{ticks, enable_duration_exact, enable_cut_short}
use deepstream_fpfilter.Tests.Links.{bin_info, pads_of, plain}

abbrev pub running : List ℕ → App Graph (ℕ × List ℕ)
running due = record {
  pads = pads_of plain [];
  is_fpfilter_enabled = false;
  fpfilter_bin = 0;
  fp_filter_dynamic_link_info = bin_info 0;
  save_fpfilter_images = false;
  main_loop = (100, due);
}

enable_duration_exact_example :
    (ticks timers 3
      (enable_fpfilter_images_save_duration timers 5 (running []))).save_fpfilter_images
    ≡ true
enable_duration_exact_example = enable_duration_exact timers timers-IsPrompt 2 5 (running []) refl

enable_cut_short_example :
    (ticks timers 5 (enable_fpfilter_images_save (running (300 ∷ 104 ∷ [])))).save_fpfilter_images
    ≡ false
enable_cut_short_example =
    enable_cut_short timers timers-IsPrompt 4 104 (300 ∷ []) [] (running (300 ∷ 104 ∷ [])) refl
      (omega arith)
