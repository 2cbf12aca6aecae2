-- ===== src/Bins/MultiFile.antt =====
-- `create_source_bin` of src/deepstream_fpfilter_app.c for a row of JPEG files (`MULTI_FILE_SRC`).
-- `integrated` is what CUDA says of the device.
use deepstream_fpfilter.Prelude.{ℕ, ◌≢◌, arith, Bool, some, List, [], ◌∷◌, ◌==◌, if◌then◌else◌}
use deepstream_fpfilter.Prelude.Int.{pos}
use deepstream_fpfilter.Pipeline.Gst.{Gst, IsDocumented, string, int, object}
use deepstream_fpfilter.Pipeline.Many.{bin_add_many, link_from}
use deepstream_fpfilter.Pipeline.Making.{IsMaking}
use deepstream_fpfilter.Pipeline.Ready.{set-Grows, caps-Grows, Grows-then}
use deepstream_fpfilter.Bins.Ghost.{add_ghost, unless}
use deepstream_fpfilter.Bins.Row.{HoldsBetween}
use deepstream_fpfilter.Bins.Prepared.{
  Prepared-Grows, bin_Prepared, make_between, set_if-Grows, in_bin-HoldsBetween,
}

module _ (G : Gst) (integrated : Bool) where
  -- From the location on. The result of the link is not looked at.
  unfoldable pub fill_source_bin : List ℕ → ℕ → ℕ → ℕ → ℕ → G.World → ℕ × G.World
  unfolding bin_add_many link_from add_ghost
  fill_source_bin location bin source jpegparser decoder w =
      let w₁ = G.set source "location" (string (some location)) w in
      let w₂ = if integrated then G.set decoder "mjpeg" (int (pos 1)) w₁ else w₁ in
      let w₃ = bin_add_many G bin (source ∷ jpegparser ∷ decoder ∷ []) w₂ in
      let (_, w₄) = link_from G source (jpegparser ∷ decoder ∷ []) w₃ in
      add_ghost G bin decoder "src" w₄

  unfoldable pub create_source_bin : List ℕ → G.World → ℕ × G.World
  unfolding fill_source_bin
  create_source_bin location w =
      let (bin, w₁) = G.bin_new w in
      let (source, w₂) = G.factory_make "multifilesrc" w₁ in
      let (caps, w₃) = G.caps_from_string "image/jpeg,framerate=30/1" w₂ in
      let w₄ = G.set source "caps" (object caps) w₃ in
      let (jpegparser, w₅) = G.factory_make "jpegparse" w₄ in
      let (decoder, w₆) = G.factory_make "nvv4l2decoder" w₅ in
      if source == 0
      then (0, w₂)
      else if jpegparser == 0
      then (0, w₅)
      else if decoder == 0
      then (0, w₆)
      else fill_source_bin location bin source jpegparser decoder w₆

module _ {G : Gst} (L : IsDocumented G) (N : IsMaking G) (integrated : Bool) where
  -- If a source bin is returned, it is a new bin that holds three new elements, and no link, bin or
  -- state has changed but the links of the three.
  pub create_source_bin-HoldsBetween :
      (location : List ℕ) (w : G.World)
      → let (bin, w') = create_source_bin G integrated location w in
        bin ≢ 0
        → (source : ℕ) × (jpegparser : ℕ) × (decoder : ℕ) × HoldsBetween N w w' bin
            (source ∷ jpegparser ∷ decoder ∷ [])
  unfolding create_source_bin fill_source_bin
  create_source_bin-HoldsBetween location w =
      let (bin, w₁) = G.bin_new w in
      let (source, w₂) = G.factory_make "multifilesrc" w₁ in
      let (caps, w₃) = G.caps_from_string "image/jpeg,framerate=30/1" w₂ in
      let w₄ = G.set source "caps" (object caps) w₃ in
      let (parser, w₅) = G.factory_make "jpegparse" w₄ in
      let (decoder, w₆) = G.factory_make "nvv4l2decoder" w₅ in
      let w₇ = G.set source "location" (string (some location)) w₆ in
      let P : ℕ × G.World → Type 0 =
        λ r. (a : ℕ) × (b : ℕ) × (c : ℕ) × HoldsBetween N w r.1 r.0 (a ∷ b ∷ c ∷ []) in
      unless P (source == 0) w₂ _ (λ made_source. unless P (parser == 0) w₅ _ (λ made_parser.
        unless P (decoder == 0) w₆ _ (λ made_decoder some_r.
          let p₂ =
            make_between N (bin ∷ []) [] "multifilesrc" w w₁ (bin_Prepared N w) (ground arith) in
          let p₄ = Prepared-Grows N w _ w₂ w₄ p₂ (
            Grows-then N w₂ w₃ w₄ (caps-Grows N "image/jpeg,framerate=30/1" w₂)
              (set-Grows N source "caps" (object caps) w₃)) in
          let p₅ = make_between N (bin ∷ source ∷ []) [] "jpegparse" w w₄ p₄ (ground arith) in
          let p₆ =
            make_between N (bin ∷ source ∷ parser ∷ []) [] "nvv4l2decoder" w w₅ p₅ (ground arith) in
          let p₇ =
            Prepared-Grows N w _ w₆ w₇ p₆
              (set-Grows N source "location" (string (some location)) w₆) in
          let p₈ =
            Prepared-Grows N w _ w₇ _ p₇
              (set_if-Grows N integrated decoder "mjpeg" (int (pos 1)) w₇) in
          (
            source,
            parser,
            decoder,
            in_bin-HoldsBetween N L w bin source (parser ∷ decoder ∷ []) _ decoder "src" p₈ some_r,
          ))))
