-- ===== src/Bins/Filter.antt =====
-- `create_filter_elements_bin` of src/deepstream_fpfilter_app.c, and the filter that is enabled
-- with it.
use deepstream_fpfilter.Prelude.{ℕ, not, ◌||◌, some, [], ◌∷◌, ◌==◌, if◌then◌else◌, Run, done, ◌>>=◌}
use deepstream_fpfilter.Prelude.Int.{pos}
use deepstream_fpfilter.Prelude.Text.{codes}
use deepstream_fpfilter.Pipeline.Gst.{Gst, string, int}
use deepstream_fpfilter.Pipeline.Many.{bin_add_many, link_from}
use deepstream_fpfilter.Config.KeyFile.{KeyFiles}
use deepstream_fpfilter.Config.Tracker.{set_tracker_properties}

module _ (G : Gst) where
  -- The two ghost pads of the bin; NULL where a pad is missing or cannot be added.
  unfoldable pub add_ghost_pads : ℕ → ℕ → ℕ → G.World → ℕ × G.World
  add_ghost_pads bin nvtracker fpfilter w =
      let filter_src_pad = G.get_static_pad fpfilter "src" w in
      let (src_added, w₁) = G.add_ghost_pad bin "src" filter_src_pad w in
      let nvtracker_sink_pad = G.get_static_pad nvtracker "sink" w₁ in
      let (sink_added, w₂) = G.add_ghost_pad bin "sink" nvtracker_sink_pad w₁ in
      if filter_src_pad == 0
      then (0, w)
      else if not src_added
      then (0, w₁)
      else if nvtracker_sink_pad == 0
      then (0, w₁)
      else if not sink_added
      then (0, w₂)
      else (bin, w₂)

  -- From the properties of the detector and the filter on.
  unfoldable pub fill_bin : ℕ → ℕ → ℕ → ℕ → G.World → ℕ × G.World
  unfolding bin_add_many link_from add_ghost_pads
  fill_bin bin nvtracker secondary_detector fpfilter w =
      let w₁ =
        G.set secondary_detector "config-file-path"
          (string (some (codes "config/config_infer_peoplesemsegnet.txt"))) w in
      let w₂ =
        G.set fpfilter "config-file-path" (string (some (codes "config/ds_fpfilter_config.txt")))
          w₁ in
      let w₃ = G.set fpfilter "enable-fp-filter" (int (pos 1)) w₂ in
      let w₄ = bin_add_many G bin (nvtracker ∷ secondary_detector ∷ fpfilter ∷ []) w₃ in
      let (_, w₅) = link_from G nvtracker (secondary_detector ∷ fpfilter ∷ []) w₄ in
      add_ghost_pads bin nvtracker fpfilter w₅

module _ (K : KeyFiles) (G : Gst) where
  unfoldable pub create_filter_elements_bin : G.World → Run (ℕ × G.World)
  unfolding fill_bin
  create_filter_elements_bin w =
      let (bin, w₁) = G.bin_new w in
      let (nvtracker, w₂) = G.factory_make "nvtracker" w₁ in
      let (secondary_detector, w₃) = G.factory_make "nvinfer" w₂ in
      let (fpfilter, w₄) = G.factory_make "nvfpfilter" w₃ in
      if nvtracker == 0 || secondary_detector == 0 || fpfilter == 0
      then done (0, w₄)
      else (set_tracker_properties K G nvtracker w₄ >>= λ (ok, w₅).
          if ok
          then done (fill_bin G bin nvtracker secondary_detector fpfilter w₅)
          else done (0, w₅))
