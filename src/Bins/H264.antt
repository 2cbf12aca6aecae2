-- ===== src/Bins/H264.antt =====
-- `create_source_bin` of src/deepstream_fpfilter_app.c for an elementary H.264 stream
-- (`H264_ELEMENTARY_SRC`).
use deepstream_fpfilter.Prelude.{ℕ, ◌≢◌, arith, ◌||◌, some, List, [], ◌∷◌, ◌==◌, if◌then◌else◌}
use deepstream_fpfilter.Pipeline.Gst.{Gst, IsDocumented, string}
use deepstream_fpfilter.Pipeline.Many.{bin_add_many, link_from}
use deepstream_fpfilter.Pipeline.Making.{IsMaking}
use deepstream_fpfilter.Pipeline.Ready.{set-Grows}
use deepstream_fpfilter.Bins.Ghost.{add_ghost, unless}
use deepstream_fpfilter.Bins.Row.{HoldsBetween}
use deepstream_fpfilter.Bins.Prepared.{
  Prepared-Grows, bin_Prepared, make_between, in_bin-HoldsBetween,
}

module _ (G : Gst) where
  -- From the property of the source on. The result of the link is not looked at.
  unfoldable pub fill_source_bin : List ℕ → ℕ → ℕ → ℕ → ℕ → G.World → ℕ × G.World
  unfolding bin_add_many link_from add_ghost
  fill_source_bin location bin source h264parser decoder w =
      let w₁ = G.set source "location" (string (some location)) w in
      let w₂ = bin_add_many G bin (source ∷ h264parser ∷ decoder ∷ []) w₁ in
      let (_, w₃) = link_from G source (h264parser ∷ decoder ∷ []) w₂ in
      add_ghost G bin decoder "src" w₃

  unfoldable pub create_source_bin : List ℕ → G.World → ℕ × G.World
  unfolding fill_source_bin
  create_source_bin location w =
      let (bin, w₁) = G.bin_new w in
      let (source, w₂) = G.factory_make "filesrc" w₁ in
      let (h264parser, w₃) = G.factory_make "h264parse" w₂ in
      let (decoder, w₄) = G.factory_make "nvv4l2decoder" w₃ in
      if source == 0 || h264parser == 0 || decoder == 0
      then (0, w₄)
      else fill_source_bin location bin source h264parser decoder w₄

module _ {G : Gst} (L : IsDocumented G) (N : IsMaking G) where
  -- If a source bin is returned, it is a new bin that holds three new elements, and no link, bin or
  -- state has changed but the links of the three.
  pub create_source_bin-HoldsBetween :
      (location : List ℕ) (w : G.World)
      → let (bin, w') = create_source_bin G location w in
        bin ≢ 0
        → (source : ℕ) × (h264parser : ℕ) × (decoder : ℕ) × HoldsBetween N w w' bin
            (source ∷ h264parser ∷ decoder ∷ [])
  unfolding create_source_bin fill_source_bin
  create_source_bin-HoldsBetween location w =
      let (bin, w₁) = G.bin_new w in
      let (source, w₂) = G.factory_make "filesrc" w₁ in
      let (parser, w₃) = G.factory_make "h264parse" w₂ in
      let (decoder, w₄) = G.factory_make "nvv4l2decoder" w₃ in
      unless (λ r. (a : ℕ) × (b : ℕ) × (c : ℕ) × HoldsBetween N w r.1 r.0 (a ∷ b ∷ c ∷ []))
        (source == 0 || parser == 0 || decoder == 0) w₄ _
        (λ made some_r.
          let p₂ = make_between N (bin ∷ []) [] "filesrc" w w₁ (bin_Prepared N w) (ground arith) in
          let p₃ = make_between N (bin ∷ source ∷ []) [] "h264parse" w w₂ p₂ (ground arith) in
          let p₄ =
            make_between N (bin ∷ source ∷ parser ∷ []) [] "nvv4l2decoder" w w₃ p₃ (ground arith) in
          let p₅ =
            Prepared-Grows N w _ w₄ _ p₄
              (set-Grows N source "location" (string (some location)) w₄) in
          (
            source,
            parser,
            decoder,
            in_bin-HoldsBetween N L w bin source (parser ∷ decoder ∷ []) _ decoder "src" p₅ some_r,
          ))
