-- ===== src/Bins/Unusable.antt =====
-- `create_filter_elements_bin` of src/deepstream_fpfilter_app.c with a tracker configuration that
-- cannot be used.
use deepstream_fpfilter.Prelude.{
  ℕ, ◌≡◌, ◌≢◌, refl, false, ◌||◌, Bool-cases, inl, inr, some, List, ◌∷◌, ◌++◌, ◌==◌, All, done,
}
use deepstream_fpfilter.Pipeline.Gst.{Gst}
use deepstream_fpfilter.Pipeline.Making.{IsMaking}
use deepstream_fpfilter.Pipeline.Ready.{Grows, Grows-then}
use deepstream_fpfilter.Config.KeyFile.{KeyFiles}
use deepstream_fpfilter.Config.Path.{slash}
use deepstream_fpfilter.Config.Tracker.{tracker_config_file, usable, set_tracker_properties-Gives}
use deepstream_fpfilter.Config.Keeps.{set_tracker_properties-Keeps}
use deepstream_fpfilter.Bins.Filter.{create_filter_elements_bin}
use deepstream_fpfilter.Control.App.{App, enable_fpfilter}

module _ (K : KeyFiles) {G : Gst} (N : IsMaking G) (dir name : List ℕ)
    (real : K.realpath tracker_config_file ≡ some (dir ++ (slash ∷ name)))
    (simple : All (λ c. c ≢ slash) name)
    (unusable : usable K (K.load_from_file tracker_config_file) ≡ false) where
  made-Grows :
      (w : G.World)
      → let w₁ = (G.bin_new w).1 in
        let w₂ = (G.factory_make "nvtracker" w₁).1 in
        let w₃ = (G.factory_make "nvinfer" w₂).1 in Grows N w (G.factory_make "nvfpfilter" w₃).1
  made-Grows w =
      let w₁ = (G.bin_new w).1 in
      let w₂ = (G.factory_make "nvtracker" w₁).1 in
      let w₃ = (G.factory_make "nvinfer" w₂).1 in
      Grows-then N w w₁ _ (record { keeps = N.bin_new_keeps w; same = N.bin_new-view w })
        (Grows-then N w₁ w₂ _
          (record { keeps = N.made_keeps "nvtracker" w₁; same = N.made-view "nvtracker" w₁ })
          (Grows-then N w₂ w₃ _
            (record { keeps = N.made_keeps "nvinfer" w₂; same = N.made-view "nvinfer" w₂ })
            (record { keeps = N.made_keeps "nvfpfilter" w₃; same = N.made-view "nvfpfilter" w₃ })))

  no_bin :
      (w : G.World)
      → (w' : G.World) × (create_filter_elements_bin K G w ≡ done (0, w')) × Grows N w w'
  unfolding create_filter_elements_bin
  no_bin w =
      let (nvtracker, w₂) = G.factory_make "nvtracker" (G.bin_new w).1 in
      let (secondary_detector, w₃) = G.factory_make "nvinfer" w₂ in
      let (fpfilter, w₄) = G.factory_make "nvfpfilter" w₃ in
      let (w₅, e) = set_tracker_properties-Gives K G nvtracker dir name real simple w₄ in
      let g : Grows N w₄ w₅ = rw e at (set_tracker_properties-Keeps K G N nvtracker w₄) in
      elim (Bool-cases (nvtracker == 0 || secondary_detector == 0 || fpfilter == 0)) [
        | inl null ↦ (w₄, rw null refl, made-Grows w)
        | inr made ↦ (w₅, rw (made, e, unusable) refl, Grows-then N w w₄ w₅ (made-Grows w) g)
      ]

  -- Where `realpath` gives the tracker configuration a directory and the configuration cannot be
  -- used, `enable_fpfilter` leaves a disabled filter disabled and waits for nothing on the pads; no
  -- element is freed, no link, bin or state changes, and the rest of the application is kept.
  pub enable_fpfilter_unusable :
      {Loop : Type 0} (a : App G.World Loop)
      → a.is_fpfilter_enabled ≡ false
      → (w : G.World) × (enable_fpfilter G (create_filter_elements_bin K G) a
          ≡ done (record a { pads = record (a.pads) { world = w }; fpfilter_bin = 0 }))
        × ((e : ℕ) → N.Exists a.pads.world e → N.Exists w e)
        × (G.view w ≡ G.view a.pads.world)
  unfolding enable_fpfilter
  enable_fpfilter_unusable a off =
      let (w, e, g) = no_bin a.pads.world in (w, rw (enable_fpfilter, off, e) refl, g.keeps, g.same)
