-- ===== src/Bins/Mp4.antt =====
-- `create_source_bin` and `qtdemux_new_pad_cb` of src/deepstream_fpfilter_app.c for MP4 files
-- (`MP4_SRC`). The global `mp4_h264parser` is part of the state here.
use text.Mathlib.Text.{◌==◌ as str_eq}
use deepstream_fpfilter.Prelude.{ℕ, ◌≢◌, ◌∙◌, arith, ◌||◌, some, List, [], ◌∷◌, ◌==◌, if◌then◌else◌}
use deepstream_fpfilter.Pipeline.Gst.{Gst, IsDocumented, string, qtdemux_new_pad_cb}
use deepstream_fpfilter.Pipeline.Many.{bin_add_many, link_from}
use deepstream_fpfilter.Pipeline.Making.{IsMaking}
use deepstream_fpfilter.Pipeline.Ready.{set-Grows, connect-Grows, Grows-then}
use deepstream_fpfilter.Bins.Ghost.{add_ghost, unless, add_ghost-Grows}
use deepstream_fpfilter.Bins.Row.{
  IsBetween, HoldsBetween, HoldsNew-Grows, add_ready, link_from-IsBetween, relinked,
}
use deepstream_fpfilter.Bins.Prepared.{Prepared, Prepared-Grows, bin_Prepared, make_between}

module _ (G : Gst) where
  -- The callback for a new pad of the demuxer. The result of the link is only printed.
  unfoldable pub link_new_pad : ℕ → ℕ → G.World → G.World
  link_new_pad mp4_h264parser pad w =
      let h264parser_sinkpad = G.get_static_pad mp4_h264parser "sink" w in
      if str_eq (G.get_name pad w) "video_0"
      then if h264parser_sinkpad == 0 then w else (G.pad_link pad h264parser_sinkpad w).1
      else w

  -- From the property of the source on. The results of the two links are not looked at.
  unfoldable pub fill_source_bin : List ℕ → ℕ → ℕ → ℕ → ℕ → ℕ → G.World → ℕ × G.World
  unfolding bin_add_many link_from add_ghost
  fill_source_bin location bin source qtdemux mp4_h264parser decoder w =
      let w₁ = G.set source "location" (string (some location)) w in
      let w₂ = bin_add_many G bin (source ∷ qtdemux ∷ mp4_h264parser ∷ decoder ∷ []) w₁ in
      let (_, w₃) = link_from G source (qtdemux ∷ []) w₂ in
      let (_, w₄) = link_from G mp4_h264parser (decoder ∷ []) w₃ in
      let w₅ = G.connect qtdemux qtdemux_new_pad_cb w₄ in add_ghost G bin decoder "src" w₅

  -- The bin, or NULL, with the global `mp4_h264parser`. The demuxer is not tested for NULL.
  unfoldable pub create_source_bin : List ℕ → G.World → (ℕ × G.World) × ℕ
  unfolding fill_source_bin
  create_source_bin location w =
      let (bin, w₁) = G.bin_new w in
      let (source, w₂) = G.factory_make "filesrc" w₁ in
      let (qtdemux, w₃) = G.factory_make "qtdemux" w₂ in
      let (mp4_h264parser, w₄) = G.factory_make "h264parse" w₃ in
      let (decoder, w₅) = G.factory_make "nvv4l2decoder" w₄ in
      (
        if source == 0 || mp4_h264parser == 0 || decoder == 0
            then (0, w₅)
            else fill_source_bin location bin source qtdemux mp4_h264parser decoder w₅,
        mp4_h264parser,
      )

-- Two rows are linked, one after the other.
two_rows-IsBetween :
    (s q p d : ℕ) (old once next : ℕ → ℕ)
    → IsBetween (s ∷ q ∷ []) old once
    → IsBetween (p ∷ d ∷ []) once next
    → IsBetween (s ∷ q ∷ p ∷ d ∷ []) old next
two_rows-IsBetween s q p d old once next b b' = record {
  spares = λ x (ne_s, (ne_q, (ne_p, (ne_d, _)))).
      b'.spares x (ne_p, (ne_d, tt)) ∙ b.spares x (ne_s, (ne_q, tt));
  leads = λ x c (ne_s, (ne_q, (ne_p, (ne_d, _)))) g.
      b.leads x c (ne_s, (ne_q, tt)) (b'.leads x c (ne_p, (ne_d, tt)) g);
}

module _ {G : Gst} (L : IsDocumented G) (N : IsMaking G) where
  two_rows :
      (w w₁ : G.World) (bin s q p d : ℕ)
      → Prepared N w (bin ∷ s ∷ q ∷ p ∷ d ∷ []) w₁
      → let w₂ = bin_add_many G bin (s ∷ q ∷ p ∷ d ∷ []) w₁ in
        let w₃ = (link_from G s (q ∷ []) w₂).1 in
        HoldsBetween N w (link_from G p (d ∷ []) w₃).1 bin (s ∷ q ∷ p ∷ d ∷ [])
  two_rows w w₁ bin s q p d (r, at₁) =
      let es = s ∷ q ∷ p ∷ d ∷ [] in
      let w₂ = bin_add_many G bin es w₁ in
      let w₃ = (link_from G s (q ∷ []) w₂).1 in
      let old = (G.view w).next in
      let held = add_ready N L w w₁ bin es r at₁ in
      let (once, b, at₃) = link_from-IsBetween N L s (q ∷ []) w₂ _ held.links in
      let held₃ = relinked N L w w₂ bin es old s (q ∷ []) once held at₃ in
      let (next, b', at₄) = link_from-IsBetween N L p (d ∷ []) w₃ _ held₃.links in
      (
        next,
        two_rows-IsBetween s q p d old once next b b',
        relinked N L w w₃ bin es once p (d ∷ []) next held₃ at₄,
      )

  module _ (demuxes : (w : G.World) → (G.factory_make "qtdemux" w).0 ≢ 0) where
    -- Where a demuxer can be made: if a source bin is returned, it is a new bin that holds four new
    -- elements, with the global parser among them, and no link, bin or state has changed but the
    -- links of the four.
    pub create_source_bin-HoldsBetween :
        (location : List ℕ) (w : G.World)
        → let ((bin, w'), mp4_h264parser) = create_source_bin G location w in
          bin ≢ 0
          → (source : ℕ) × (qtdemux : ℕ) × (decoder : ℕ) × HoldsBetween N w w' bin
              (source ∷ qtdemux ∷ mp4_h264parser ∷ decoder ∷ [])
    unfolding create_source_bin fill_source_bin
    create_source_bin-HoldsBetween location w =
        let (bin, w₁) = G.bin_new w in
        let (s, w₂) = G.factory_make "filesrc" w₁ in
        let (q, w₃) = G.factory_make "qtdemux" w₂ in
        let (p, w₄) = G.factory_make "h264parse" w₃ in
        let (d, w₅) = G.factory_make "nvv4l2decoder" w₄ in
        let P : ℕ × G.World → Type 0 =
          λ r. (s : ℕ) × (q : ℕ) × (d : ℕ) × HoldsBetween N w r.1 r.0 (s ∷ q ∷ p ∷ d ∷ []) in
        unless P (s == 0 || p == 0 || d == 0) w₅ _ (λ made some_r.
          let p₂ = make_between N (bin ∷ []) [] "filesrc" w w₁ (bin_Prepared N w) (ground arith) in
          let p₃ = make_between N (bin ∷ s ∷ []) [] "qtdemux" w w₂ p₂ (demuxes w₂) in
          let p₄ = make_between N (bin ∷ s ∷ q ∷ []) [] "h264parse" w w₃ p₃ (ground arith) in
          let p₅ =
            make_between N (bin ∷ s ∷ q ∷ p ∷ []) [] "nvv4l2decoder" w w₄ p₄ (ground arith) in
          let w₆ = G.set s "location" (string (some location)) w₅ in
          let p₆ =
            Prepared-Grows N w _ w₅ w₆ p₅ (set-Grows N s "location" (string (some location)) w₅) in
          let w₇ =
            (link_from G p (d ∷ [])
              (link_from G s (q ∷ []) (bin_add_many G bin (s ∷ q ∷ p ∷ d ∷ []) w₆)).1).1 in
          let w₈ = G.connect q qtdemux_new_pad_cb w₇ in
          let (same, g) = add_ghost-Grows N bin d "src" w₈ some_r in
          let (next, between, held) = two_rows w w₆ bin s q p d p₆ in
          let g₇ = Grows-then N w₇ w₈ _ (connect-Grows N q qtdemux_new_pad_cb w₇) g in
          (s, q, d, (next, between, rw same (HoldsNew-Grows N w w₇ _ bin _ next held g₇))))
