-- ===== src/Main/Started.antt =====
-- What `main` of src/deepstream_fpfilter_app.c has set up when the pipeline plays.
use mathlib.Core.Option
use deepstream_fpfilter.Prelude.{
  ℕ, ◌≡◌, ◌≢◌, refl, Bool, true, false, Option, Option-cases, none, some, inl, inr, List, [], ◌∷◌,
  leb, length, Bool-cases, Run, done, fault, spent, ◌>>=◌, Returns, Holds, All-map,
}
use deepstream_fpfilter.Pipeline.Gst.{Gst, IsDocumented, spread}
use deepstream_fpfilter.Pipeline.Making.{IsMaking}
use deepstream_fpfilter.Pipeline.Many.{IsLoose, AreLoose}
use deepstream_fpfilter.Pipeline.Ready.{IsMade, AreReady, AreReady-Grows}
use deepstream_fpfilter.Config.KeyFile.{KeyFiles}
use deepstream_fpfilter.Config.Property.{get_fpfilter_status_from_cfg_file}
use deepstream_fpfilter.Control.App.{App}
use deepstream_fpfilter.Control.Consistent.{IsConsistent}
use deepstream_fpfilter.Main.Start.{
  Elements, Running, set_properties, create_elements, create_filter, add_elements, link_and_play,
  set_up, assemble, start,
}
use deepstream_fpfilter.Main.Makers.{AreMakers}
use deepstream_fpfilter.Main.Elements.{
  all_elements, made_first, create_elements-AreReady, set_properties-Grows, FilterMade,
  create_filter-FilterMade, all_elements-AreReady,
}
use deepstream_fpfilter.Main.Keeps.{link_and_play_keeps}
use deepstream_fpfilter.Main.Layout.{placed, linked_up, add_elements-view, link_and_play-view}

module _ {G : Gst} (N : IsMaking G) where
  pub ready-AreLoose :
      (w₀ : G.World) (es : List ℕ) (w : G.World) → AreReady N w₀ es w → AreLoose (G.view w) es
  ready-AreLoose w₀ es w r = record {
    each =
        All-map {P = λ x. (¬ N.Exists w₀ x) × N.Exists w x × IsLoose (G.view w) x}
          {Q = IsLoose (G.view w)} (λ x (n, h, l). l) es r.each;
    distinct = r.distinct;
  }

module _ {G : Gst} (N : IsMaking G) {Loop : Type 0} where
  -- Since `w₀` the elements have been made, all new and distinct. They are in the pipeline, linked
  -- in the order of the stream, and the pipeline plays with all that is in it; no other link, bin
  -- or state has changed since the last of them was made. The info for the dynamic linking names
  -- the elements around the filter.
  pub record IsLaidOut (w₀ : G.World) (e : Elements) (sink : ℕ) (a : App G.World Loop)
      : Type 0 where
    pub before : G.World
    pub ready : AreReady N w₀ (all_elements e sink a.is_fpfilter_enabled a.fpfilter_bin) before
    pub layout : G.view a.pads.world ≡ record {
      next = linked_up e sink a.is_fpfilter_enabled a.fpfilter_bin (G.view before).next;
      parent = placed e sink a.is_fpfilter_enabled a.fpfilter_bin (G.view before).parent;
      playing =
          spread G.depth
            (placed e sink a.is_fpfilter_enabled a.fpfilter_bin (G.view before).parent)
            e.pipeline
            true
            (G.view before).playing;
    }
    pub kept : (x : ℕ) → N.Exists before x → N.Exists a.pads.world x
    pub unprobed : a.pads.probes ≡ []
    pub main_prev : a.fp_filter_dynamic_link_info.main_prev_element ≡ e.nvvidconv1
    pub main_prev_prev : a.fp_filter_dynamic_link_info.main_prev_prev_element ≡ e.primary_detector
    pub main_next : a.fp_filter_dynamic_link_info.main_next_element ≡ e.nvvidconv2
    pub info_pipeline : a.fp_filter_dynamic_link_info.pipeline ≡ e.pipeline
    pub consistent : IsConsistent a

  -- What is said of the result of `main`: it is laid out, if there is a sink.
  abbrev pub LaidOut : G.World → Running G.World Loop → Type 0
  LaidOut w r = r.sink ≢ 0 → IsLaidOut w r.elements r.sink r.app

module _ (K : KeyFiles) (G : Gst) (L : IsDocumented G) (N : IsMaking G) {Loop : Type 0}
    (create_source_bin create_sink_bin : List ℕ → G.World → ℕ × G.World)
    (create_filter_elements_bin : G.World → Run (ℕ × G.World))
    (M : AreMakers N create_source_bin create_sink_bin create_filter_elements_bin) where
  set_up-IsLaidOut :
      (w₀ : G.World) (e : Elements) (sink : ℕ) (on : Bool) (loop : ℕ) (main_loop : Loop)
      (w w₁ : G.World)
      → AreReady N w₀ (made_first e) w
      → (sink ≢ 0 → IsMade N w w₁ sink)
      → (r : ℕ × G.World) → FilterMade N on w₁ r
      → Holds
          (λ (sink, app). sink ≢ 0 → IsLaidOut N w₀ e sink app)
          (set_up G e sink on loop main_loop r)
  unfolding set_up
  set_up-IsLaidOut w₀ e sink on loop main_loop w w₁ ready sink_made (bin, w₂) filter =
      let w₃ = add_elements G e sink on bin w₂ in
      elim (Option-cases (link_and_play G e sink on bin w₃)) [
        | inl failed ↦ rw (set_up, failed) tt
        | inr (w₄, played) ↦
            rw (set_up, played)
              (λ some_sink.
                let all =
                  all_elements-AreReady N w₀ e sink on bin w w₁ w₂ ready (sink_made some_sink)
                    filter in
                let loose = ready-AreLoose N w₀ (all_elements e sink on bin) w₂ all in
                let layout =
                  link_and_play-view G L N e sink on bin w₃ (G.view w₂) _ loose
                    (add_elements-view G L e sink on bin w₂ loose) in
                record {
                  before = w₂;
                  ready = all;
                  layout = rw played at layout;
                  kept = λ x h. rw played at (link_and_play_keeps G N e sink on bin w₂ x h);
                  unprobed = refl;
                  main_prev = refl;
                  main_prev_prev = refl;
                  main_next = refl;
                  info_pipeline = refl;
                  consistent = record {
                    named = refl;
                    on_bin = on_bin on filter;
                    off_bin = off_bin on filter;
                  };
                })
      ]
    where
      on_bin : (on : Bool) → FilterMade N on w₁ (bin, w₂) → on ≡ true → bin ≢ 0
      on_bin true m _ = m.loose.some
      on_bin false m e = absurd (cc)

      off_bin : (on : Bool) → FilterMade N on w₁ (bin, w₂) → on ≡ false → bin ≡ 0
      off_bin true m e = absurd (cc)
      off_bin false (null, _) _ = null

  bind-Holds :
      (P : ℕ × App G.World Loop → Type 0) (Q : ℕ × G.World → Type 0)
      (f : ℕ × G.World → Option (ℕ × App G.World Loop))
      → ((r : ℕ × G.World) → Q r → Holds P (f r))
      → (m : Run (Option (ℕ × G.World))) → Returns (Holds Q) m
      → Returns (Holds P) (m >>= λ o. done (Option.bind o f))
  unfolding Option.bind
  bind-Holds P Q f h (done none) q = tt
  bind-Holds P Q f h (done (some r)) q = h r q
  bind-Holds P Q f h fault q = tt
  bind-Holds P Q f h spent q = tt

  assemble-IsLaidOut :
      (unset : Bool) (loop : ℕ) (main_loop : Loop) (e : Elements) (out_name : List ℕ)
      (w₀ w : G.World)
      → AreReady N w₀ (made_first e) w
      → Returns (Holds (λ (sink, app). sink ≢ 0 → IsLaidOut N w₀ e sink app)) (
          assemble K G create_source_bin create_sink_bin create_filter_elements_bin unset loop
            main_loop e out_name w)
  unfolding assemble
  assemble-IsLaidOut unset loop main_loop e out_name w₀ w ready =
      let w₁ = set_properties G e w in
      let (sink, w₂) = create_sink_bin out_name w₁ in
      let on = get_fpfilter_status_from_cfg_file K unset "config/ds_fpfilter_config.txt" in
      bind-Holds (λ (sink, app). sink ≢ 0 → IsLaidOut N w₀ e sink app) (FilterMade N on w₂)
        (set_up G e sink on loop main_loop)
        (set_up-IsLaidOut w₀ e sink on loop main_loop w₁ w₂
          (AreReady-Grows N w₀ (made_first e) w w₁ ready (set_properties-Grows N e w))
          (M.sink_made out_name w₁))
        (create_filter G create_filter_elements_bin on w₂)
        (create_filter-FilterMade N create_filter_elements_bin M.filter_made on w₂)

  map-Holds :
      (P : Running G.World Loop → Type 0) (Q : ℕ × App G.World Loop → Type 0)
      (f : ℕ × App G.World Loop → Running G.World Loop)
      → ((r : ℕ × App G.World Loop) → Q r → P (f r))
      → (m : Run (Option (ℕ × App G.World Loop))) → Returns (Holds Q) m
      → Returns (Holds P) (m >>= λ o. done (Option.map f o))
  map-Holds P Q f h (done none) q = tt
  map-Holds P Q f h (done (some r)) q = h r q
  map-Holds P Q f h fault q = tt
  map-Holds P Q f h spent q = tt

  -- Whatever the arguments: where `main` comes to play the pipeline and the sink has been made, all
  -- the elements are new and distinct, they are in the pipeline and linked in the order of the
  -- stream, with the filter in its place where it is enabled, the pipeline plays with all that is
  -- in it, no other link, bin or state has changed since they were made, and the info for the
  -- dynamic linking names the elements around the filter and agrees with the switch.
  pub start-IsLaidOut :
      (unset : Bool) (loop : ℕ) (main_loop : Loop) (argv : List (List ℕ)) (w : G.World)
      → Returns (Holds (LaidOut N w)) (
          start K G create_source_bin create_sink_bin create_filter_elements_bin unset loop
            main_loop argv w)
  unfolding start
  start-IsLaidOut unset loop main_loop [] w = tt
  start-IsLaidOut unset loop main_loop (a ∷ []) w = tt
  start-IsLaidOut unset loop main_loop (a ∷ b ∷ []) w = tt
  start-IsLaidOut unset loop main_loop (a ∷ b ∷ c ∷ []) w = tt
  start-IsLaidOut unset loop main_loop (name ∷ input ∷ labels ∷ output ∷ rest) w =
      elim (Bool-cases (leb 1024 (length input))) [
        | inl long ↦ rw (start, long) tt
        | inr short ↦ elim (Option-cases (create_elements G create_source_bin input w)) [
          | inl failed ↦ rw (start, short, failed) tt
          | inr ((e, w₁), made) ↦
              let ready =
                rw made at (create_elements-AreReady N create_source_bin M.source_made input w) in
              rw (start, short, made)
                (map-Holds (LaidOut N w) (λ (sink, app). sink ≢ 0 → IsLaidOut N w e sink app) _
                  (λ r h. h) _ (assemble-IsLaidOut unset loop main_loop e output w w₁ ready))
        ]
      ]
