-- ===== src/Main/Keeps.antt =====
-- `main` of src/deepstream_fpfilter_app.c frees no element on its way.
use deepstream_fpfilter.Prelude.{
  ℕ, Bool, true, not, Option-cases, Bool-cases, none, some, inl, inr, ◌==◌, if◌then◌else◌, Holds,
  Holds-if, if_cases,
}
use deepstream_fpfilter.Pipeline.Gst.{Gst, after_filter_buffer_probe}
use deepstream_fpfilter.Pipeline.Making.{IsMaking}
use deepstream_fpfilter.Pipeline.Many.{bin_add_many, link_from}
use deepstream_fpfilter.Bins.Row.{bin_add_many_keeps, link_from_keeps}
use deepstream_fpfilter.Main.Start.{Elements, add_elements, link_source, stream, link_and_play}
use deepstream_fpfilter.Main.Layout.{added_first}

module _ (G : Gst) (N : IsMaking G) where
  link_source_keeps :
      (e : Elements) (w : G.World) (x : ℕ)
      → N.Exists w x
      → Holds (λ w'. N.Exists w' x) (link_source G e w)
  unfolding link_source
  link_source_keeps e w x h =
      let (sinkpad, w₁) = G.get_request_pad e.streammux "sink_0" w in
      let srcpad = G.get_static_pad e.source "src" w₁ in
      let (linked, w₂) = G.pad_link srcpad sinkpad w₁ in
      Holds-if (λ w'. N.Exists w' x) (sinkpad == 0) _
        (λ _.
          Holds-if (λ w'. N.Exists w' x) (srcpad == 0) (if linked then some w₂ else none)
            (λ _. elim (Bool-cases linked) [
              | inl fits ↦ rw fits (
                  N.pad_link_keeps srcpad sinkpad w₁ x (N.request_keeps e.streammux "sink_0" w x h))
              | inr unfit ↦ rw unfit tt
            ]))

  -- No element is freed on the way.
  pub link_and_play_keeps :
      (e : Elements) (sink : ℕ) (on : Bool) (bin : ℕ) (w : G.World) (x : ℕ)
      → N.Exists w x
      → Holds (λ w'. N.Exists w' x) (link_and_play G e sink on bin (add_elements G e sink on bin w))
  unfolding link_and_play add_elements
  link_and_play_keeps e sink on bin w x h =
      let w₀ = bin_add_many G e.pipeline (added_first e sink) w in
      let w₁ = if on then G.bin_add e.pipeline bin w₀ else w₀ in
      let h₀ = bin_add_many_keeps N e.pipeline (added_first e sink) w x h in
      let h₁ : N.Exists w₁ x =
        if_cases (λ v. N.Exists v x) on (G.bin_add e.pipeline bin w₀) w₀
          (λ _. N.bin_add_keeps e.pipeline bin w₀ x h₀) (λ _. h₀) in
      elim (Option-cases (link_source G e w₁)) [
        | inl none_linked ↦ rw (link_and_play, none_linked) tt
        | inr (w₂, source_linked) ↦
            let (linked, w₃) = link_from G e.streammux (stream e sink on bin) w₂ in
            let pad = G.get_static_pad e.nvvidconv2 "sink" w₃ in
            let w₄ = G.connect pad after_filter_buffer_probe w₃ in
            let h₂ = rw source_linked at (link_source_keeps e w₁ x h₁) in
            let h₄ =
              N.connect_keeps pad after_filter_buffer_probe w₃ x
                (link_from_keeps N e.streammux (stream e sink on bin) w₂ x h₂) in
            rw (link_and_play, source_linked)
              (Holds-if (λ w'. N.Exists w' x) (not linked) _
                (λ _.
                  Holds-if (λ w'. N.Exists w' x) (pad == 0) (some (G.set_state e.pipeline true w₄))
                    (λ _. N.set_state_keeps e.pipeline true w₄ x h₄)))
      ]
