-- ===== src/Bins/FileSink.antt =====
-- `create_sink_bin` of src/deepstream_fpfilter_app.c that writes an MP4 file (`FILE_SINK`).
-- `integrated` is what CUDA says of the device.
use deepstream_fpfilter.Prelude.{
  ℕ, String, ◌≢◌, arith, Bool, not, some, List, [], ◌∷◌, ◌==◌, if◌then◌else◌,
}
use deepstream_fpfilter.Prelude.Int.{pos}
use deepstream_fpfilter.Pipeline.Gst.{Gst, IsDocumented, string, int, object, seek_query_drop_prob}
use deepstream_fpfilter.Pipeline.Many.{bin_add_many, link_from}
use deepstream_fpfilter.Pipeline.Making.{IsMaking}
use deepstream_fpfilter.Pipeline.Ready.{Grows, set-Grows, caps-Grows, connect-Grows, Grows-then}
use deepstream_fpfilter.Bins.Ghost.{add_ghost, unless}
use deepstream_fpfilter.Bins.Row.{HoldsRow}
use deepstream_fpfilter.Bins.Prepared.{
  Prepared, Prepared-Grows, bin_Prepared, make_between, set_if-Grows, row_in_bin,
}

module _ (G : Gst) where
  -- From the properties of the file on, the elements in the order of the stream.
  unfoldable pub fill_sink_bin : List ℕ → ℕ → ℕ → ℕ → ℕ → ℕ → ℕ → G.World → ℕ × G.World
  unfolding bin_add_many link_from add_ghost
  fill_sink_bin out_name bin sink_cap_filter sink_encoder sink_codecparse sink_mux sink w =
      let w₁ = G.set sink "location" (string (some out_name)) w in
      let w₂ = G.set sink "sync" (int (pos 0)) w₁ in
      let w₃ = G.set sink "async" (int (pos 0)) w₂ in
      let rest = sink_encoder ∷ sink_codecparse ∷ sink_mux ∷ sink ∷ [] in
      let w₄ = bin_add_many G bin (sink_cap_filter ∷ rest) w₃ in
      let (linked, w₅) = link_from G sink_cap_filter rest w₄ in
      if not linked then (0, w₅) else add_ghost G bin sink_cap_filter "sink" w₅

module _ (G : Gst) (integrated : Bool) where
  -- The probe and the properties of the encoder.
  unfoldable pub set_encoder : ℕ → ℕ → G.World → G.World
  set_encoder sink_encoder gstpad w =
      let w₁ = G.connect gstpad seek_query_drop_prob w in
      let w₂ = if integrated then G.set sink_encoder "bufapi-version" (int (pos 1)) w₁ else w₁ in
      let w₃ = G.set sink_encoder "profile" (int (pos 0)) w₂ in
      let w₄ = G.set sink_encoder "iframeinterval" (int (pos 30)) w₃ in
      G.set sink_encoder "bitrate" (int (pos 6000000)) w₄

  -- From the encoder on.
  unfoldable pub encode_to : List ℕ → ℕ → ℕ → G.World → ℕ × G.World
  unfolding set_encoder fill_sink_bin
  encode_to out_name bin sink_cap_filter w =
      let (sink_encoder, w₁) = G.factory_make "nvv4l2h264enc" w in
      let gstpad = G.get_static_pad sink_encoder "sink" w₁ in
      let w₂ = set_encoder sink_encoder gstpad w₁ in
      let (sink_codecparse, w₃) = G.factory_make "h264parse" w₂ in
      let (sink_mux, w₄) = G.factory_make "qtmux" w₃ in
      let (sink, w₅) = G.factory_make "filesink" w₄ in
      if sink_encoder == 0
      then (0, w₁)
      else if gstpad == 0
      then (0, w₁)
      else if sink_codecparse == 0
      then (0, w₃)
      else if sink_mux == 0
      then (0, w₄)
      else if sink == 0
      then (0, w₅)
      else fill_sink_bin G out_name bin sink_cap_filter sink_encoder sink_codecparse sink_mux sink
          w₅

  unfoldable pub create_sink_bin : List ℕ → G.World → ℕ × G.World
  unfolding encode_to
  create_sink_bin out_name w =
      let (bin, w₁) = G.bin_new w in
      let (sink_cap_filter, w₂) = G.factory_make "capsfilter" w₁ in
      let (caps, w₃) = G.caps_from_string "video/x-raw(memory:NVMM), format=I420" w₂ in
      let w₄ = G.set sink_cap_filter "caps" (object caps) w₃ in
      if sink_cap_filter == 0 then (0, w₂) else encode_to out_name bin sink_cap_filter w₄

module _ {G : Gst} (L : IsDocumented G) (N : IsMaking G) (integrated : Bool) where
  set_encoder-Grows :
      (encoder pad : ℕ) (w : G.World) → Grows N w (set_encoder G integrated encoder pad w)
  unfolding set_encoder
  set_encoder-Grows encoder pad w =
      let w₁ = G.connect pad seek_query_drop_prob w in
      let w₂ = if integrated then G.set encoder "bufapi-version" (int (pos 1)) w₁ else w₁ in
      let w₃ = G.set encoder "profile" (int (pos 0)) w₂ in
      let w₄ = G.set encoder "iframeinterval" (int (pos 30)) w₃ in
      Grows-then N w w₁ _ (connect-Grows N pad seek_query_drop_prob w) (
        Grows-then N w₁ w₂ _ (set_if-Grows N integrated encoder "bufapi-version" (int (pos 1)) w₁) (
          Grows-then N w₂ w₃ _ (set-Grows N encoder "profile" (int (pos 0)) w₂) (
            Grows-then N w₃ w₄ _ (set-Grows N encoder "iframeinterval" (int (pos 30)) w₃)
              (set-Grows N encoder "bitrate" (int (pos 6000000)) w₄))))

  -- What the bin holds, where it is not NULL.
  abbrev HoldsFive : G.World → ℕ × G.World → Type 0
  HoldsFive w (bin, w') =
      (filter : ℕ) × (encoder : ℕ) × (parser : ℕ) × (mux : ℕ) × (sink : ℕ) × HoldsRow N w w' bin
        filter (encoder ∷ parser ∷ mux ∷ sink ∷ [])

  fill_sink_bin-HoldsFive :
      (out_name : List ℕ) (w : G.World) (bin f e p m s : ℕ) (w₁ : G.World)
      → Prepared N w (bin ∷ f ∷ e ∷ p ∷ m ∷ s ∷ []) w₁
      → (fill_sink_bin G out_name bin f e p m s w₁).0 ≢ 0
      → HoldsFive w (fill_sink_bin G out_name bin f e p m s w₁)
  unfolding fill_sink_bin
  fill_sink_bin-HoldsFive out_name w bin f e p m s w₁ prepared =
      let w₂ = G.set s "location" (string (some out_name)) w₁ in
      let w₃ = G.set s "sync" (int (pos 0)) w₂ in
      let w₄ = G.set s "async" (int (pos 0)) w₃ in
      let g = Grows-then N w₁ w₂ w₄ (set-Grows N s "location" (string (some out_name)) w₁) (
        Grows-then N w₂ w₃ w₄ (set-Grows N s "sync" (int (pos 0)) w₂)
          (set-Grows N s "async" (int (pos 0)) w₃)) in
      unless (HoldsFive w) _ _ _ (λ linked some_r. (
        f,
        e,
        p,
        m,
        s,
        row_in_bin N L w bin f (e ∷ p ∷ m ∷ s ∷ []) w₄ f "sink"
            (Prepared-Grows N w _ w₁ w₄ prepared g) (ground (arith, linked)) some_r,
      ))

  encode_to-HoldsFive :
      (out_name : List ℕ) (w : G.World) (bin f : ℕ) (w₀ : G.World)
      → Prepared N w (bin ∷ f ∷ []) w₀
      → (encode_to G integrated out_name bin f w₀).0 ≢ 0
      → HoldsFive w (encode_to G integrated out_name bin f w₀)
  unfolding encode_to
  encode_to-HoldsFive out_name w bin f w₀ p₀ =
      let (e, w₁) = G.factory_make "nvv4l2h264enc" w₀ in
      let pad = G.get_static_pad e "sink" w₁ in
      let w₂ = set_encoder G integrated e pad w₁ in
      let (p, w₃) = G.factory_make "h264parse" w₂ in
      let (m, w₄) = G.factory_make "qtmux" w₃ in
      let (s, w₅) = G.factory_make "filesink" w₄ in
      unless (HoldsFive w) (e == 0) w₁ _ (λ made_e. unless (HoldsFive w) (pad == 0) w₁ _ (λ found.
        unless (HoldsFive w) (p == 0) w₃ _ (λ made_p. unless (HoldsFive w) (m == 0) w₄ _ (λ made_m.
          unless (HoldsFive w) (s == 0) w₅ _ (λ made_s.
            let p₁ = make_between N (bin ∷ f ∷ []) [] "nvv4l2h264enc" w w₀ p₀ (ground arith) in
            let p₂ = Prepared-Grows N w _ w₁ w₂ p₁ (set_encoder-Grows e pad w₁) in
            let p₃ = make_between N (bin ∷ f ∷ e ∷ []) [] "h264parse" w w₂ p₂ (ground arith) in
            let p₄ = make_between N (bin ∷ f ∷ e ∷ p ∷ []) [] "qtmux" w w₃ p₃ (ground arith) in
            let p₅ =
              make_between N (bin ∷ f ∷ e ∷ p ∷ m ∷ []) [] "filesink" w w₄ p₄ (ground arith) in
            fill_sink_bin-HoldsFive out_name w bin f e p m s w₅ p₅)))))

  -- If a sink bin is returned, it is a new bin that holds five new elements, each linked to the next,
  -- and no other link, bin or state has changed.
  pub create_sink_bin-HoldsRow :
      (out_name : List ℕ) (w : G.World)
      → let (bin, w') = create_sink_bin G integrated out_name w in
        bin ≢ 0
        → (filter : ℕ) × (encoder : ℕ) × (parser : ℕ) × (mux : ℕ) × (sink : ℕ) × HoldsRow N w w' bin
            filter
            (encoder ∷ parser ∷ mux ∷ sink ∷ [])
  unfolding create_sink_bin
  create_sink_bin-HoldsRow out_name w =
      let (bin, w₁) = G.bin_new w in
      let (f, w₂) = G.factory_make "capsfilter" w₁ in
      let caps_text : String = "video/x-raw(memory:NVMM), format=I420" in
      let (caps, w₃) = G.caps_from_string caps_text w₂ in
      let w₄ = G.set f "caps" (object caps) w₃ in
      unless (HoldsFive w) (f == 0) w₂ _ (λ made.
        let p₂ = make_between N (bin ∷ []) [] "capsfilter" w w₁ (bin_Prepared N w) (ground arith) in
        encode_to-HoldsFive out_name w bin f w₄ (
          Prepared-Grows N w _ w₂ w₄ p₂ (
            Grows-then N w₂ w₃ w₄ (caps-Grows N caps_text w₂)
              (set-Grows N f "caps" (object caps) w₃))))
