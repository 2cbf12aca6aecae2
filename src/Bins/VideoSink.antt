-- ===== src/Bins/VideoSink.antt =====
-- `create_sink_bin` of src/deepstream_fpfilter_app.c that shows the video (`VIDEO_RENDER_SINK`), with
-- `PLATFORM_TEGRA` and without. The name of the output is ignored.
use deepstream_fpfilter.Prelude.{ℕ, refl, ◌≢◌, arith, not, [], ◌∷◌, ◌==◌, if◌then◌else◌}
use deepstream_fpfilter.Pipeline.Gst.{Gst, IsDocumented}
use deepstream_fpfilter.Pipeline.Many.{bin_add_many, link_from}
use deepstream_fpfilter.Pipeline.Making.{IsMaking}
use deepstream_fpfilter.Bins.Ghost.{add_ghost, unless}
use deepstream_fpfilter.Bins.Row.{HoldsRow}
use deepstream_fpfilter.Bins.Prepared.{bin_Prepared, make_between, row_in_bin}

module _ (G : Gst) where
  -- The two elements of a Tegra.
  unfoldable pub fill_tegra : ℕ → ℕ → ℕ → G.World → ℕ × G.World
  unfolding bin_add_many link_from add_ghost
  fill_tegra bin transform sink w =
      let w₁ = bin_add_many G bin (transform ∷ sink ∷ []) w in
      let (linked, w₂) = link_from G transform (sink ∷ []) w₁ in
      if not linked then (0, w₂) else add_ghost G bin transform "sink" w₂

  unfoldable pub create_tegra_sink_bin : G.World → ℕ × G.World
  unfolding fill_tegra
  create_tegra_sink_bin w =
      let (bin, w₁) = G.bin_new w in
      let (transform, w₂) = G.factory_make "nvegltransform" w₁ in
      let (sink, w₃) = G.factory_make "nveglglessink" w₂ in
      if sink == 0
      then (0, w₃)
      else if transform == 0
      then (0, w₃)
      else fill_tegra bin transform sink w₃

  unfoldable pub create_sink_bin : G.World → ℕ × G.World
  unfolding bin_add_many add_ghost
  create_sink_bin w =
      let (bin, w₁) = G.bin_new w in
      let (sink, w₂) = G.factory_make "nveglglessink" w₁ in
      if sink == 0 then (0, w₂) else add_ghost G bin sink "sink" (bin_add_many G bin (sink ∷ []) w₂)

module _ {G : Gst} (L : IsDocumented G) (N : IsMaking G) where
  -- If a sink bin is returned on a Tegra, it is a new bin that holds two new elements, the first linked
  -- to the second, and no other link, bin or state has changed.
  pub create_tegra_sink_bin-HoldsRow :
      (w : G.World)
      → let (bin, w') = create_tegra_sink_bin G w in
        bin ≢ 0 → (transform : ℕ) × (sink : ℕ) × HoldsRow N w w' bin transform (sink ∷ [])
  unfolding create_tegra_sink_bin fill_tegra
  create_tegra_sink_bin-HoldsRow w =
      let (bin, w₁) = G.bin_new w in
      let (transform, w₂) = G.factory_make "nvegltransform" w₁ in
      let (sink, w₃) = G.factory_make "nveglglessink" w₂ in
      let P : ℕ × G.World → Type 0 =
        λ r. (transform : ℕ) × (sink : ℕ) × HoldsRow N w r.1 r.0 transform (sink ∷ []) in
      unless P (sink == 0) w₃ _ (λ made_sink. unless P (transform == 0) w₃ _ (λ made_transform.
        unless P _ _ _ (λ linked some_r.
          let p₂ =
            make_between N (bin ∷ []) [] "nvegltransform" w w₁ (bin_Prepared N w) (ground arith) in
          let p₃ =
            make_between N (bin ∷ transform ∷ []) [] "nveglglessink" w w₂ p₂ (ground arith) in
          (
            transform,
            sink,
            row_in_bin N L w bin transform (sink ∷ []) w₃ transform "sink" p₃
                (ground (arith, linked)) some_r,
          ))))

  -- If a sink bin is returned elsewhere, it is a new bin that holds one new element, and no link, no
  -- other bin and no state has changed.
  pub create_sink_bin-HoldsRow :
      (w : G.World)
      → let (bin, w') = create_sink_bin G w in bin ≢ 0 → (sink : ℕ) × HoldsRow N w w' bin sink []
  unfolding create_sink_bin link_from
  create_sink_bin-HoldsRow w =
      let (bin, w₁) = G.bin_new w in
      let (sink, w₂) = G.factory_make "nveglglessink" w₁ in
      unless (λ r. (sink : ℕ) × HoldsRow N w r.1 r.0 sink []) (sink == 0) w₂ _
        (λ made some_r.
          let p₂ =
            make_between N (bin ∷ []) [] "nveglglessink" w w₁ (bin_Prepared N w) (ground arith) in
          (sink, row_in_bin N L w bin sink [] w₂ sink "sink" p₂ refl some_r))
