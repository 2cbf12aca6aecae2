-- ===== src/Main/Builds.antt =====
-- The bins of each build of src/deepstream_fpfilter_app.c are what `main` asks for. The Makefile takes
-- `MP4_SRC` and `FILE_SINK`.
use deepstream_fpfilter.Prelude.{ℕ, ◌≡◌, ◌≢◌, some, Bool, List, [], ◌∷◌, ◌++◌, All, Returns}
use deepstream_fpfilter.Pipeline.Gst.{Gst, IsDocumented}
use deepstream_fpfilter.Pipeline.Making.{IsMaking}
use deepstream_fpfilter.Pipeline.Ready.{IsMade}
use deepstream_fpfilter.Config.KeyFile.{KeyFiles}
use deepstream_fpfilter.Config.Path.{slash}
use deepstream_fpfilter.Config.Tracker.{tracker_config_file}
use deepstream_fpfilter.Bins.Row.{HoldsRow, HoldsBetween, chain-IsBetween, HoldsNew-IsMade}
use deepstream_fpfilter.Bins.Filter.{create_filter_elements_bin}
use deepstream_fpfilter.Bins.Inside.{create_filter_elements_bin-HoldsBetween}
use deepstream_fpfilter.Bins.Mp4
use deepstream_fpfilter.Bins.H264
use deepstream_fpfilter.Bins.MultiFile
use deepstream_fpfilter.Bins.VideoSink
use deepstream_fpfilter.Bins.FileSink
use deepstream_fpfilter.Main.Makers.{AreMakers}

module _ {G : Gst} (L : IsDocumented G) (N : IsMaking G) where
  row-IsMade :
      (w w' : G.World) (bin a : ℕ) (es : List ℕ) → HoldsRow N w w' bin a es → IsMade N w w' bin
  row-IsMade w w' bin a es h =
      HoldsNew-IsMade N w w' bin (a ∷ es) _ (chain-IsBetween a es (G.view w).next) h

  between-IsMade :
      (w w' : G.World) (bin : ℕ) (es : List ℕ) → HoldsBetween N w w' bin es → IsMade N w w' bin
  between-IsMade w w' bin es (next, between, h) = HoldsNew-IsMade N w w' bin es next between h

  module _ (K : KeyFiles) (dir name : List ℕ)
      (real : K.realpath tracker_config_file ≡ some (dir ++ (slash ∷ name)))
      (simple : All (λ c. c ≢ slash) name) where
    filter-IsMade :
        (w : G.World)
        → Returns (λ (bin, w'). bin ≢ 0 → IsMade N w w' bin) (create_filter_elements_bin K G w)
    filter-IsMade w =
        let (bin, w', e, h) =
          create_filter_elements_bin-HoldsBetween K L N dir name real simple w in
        rw e (λ some_bin. let (_, (held, _)) = h some_bin in between-IsMade w w' bin _ held)

    -- The bins of the default build, `MP4_SRC` and `FILE_SINK`, are what `main` asks for, where a
    -- demuxer can be made: a source, sink or filter bin that is returned is a new element, linked
    -- to nothing and in no bin, no link or bin of an element that was there has changed, and
    -- nothing new is linked to one.
    pub default_build :
        (integrated : Bool)
        → ((w : G.World) → (G.factory_make "qtdemux" w).0 ≢ 0)
        → AreMakers N
            (λ location w. (Mp4.create_source_bin G location w).0)
            (FileSink.create_sink_bin G integrated)
            (create_filter_elements_bin K G)
    default_build integrated demuxes = record {
      source_made = λ location w some_bin.
          let (s, q, d, held) =
            Mp4.create_source_bin-HoldsBetween L N demuxes location w some_bin in
          between-IsMade w _ _ _ held;
      sink_made = λ out_name w some_bin.
          let (f, e, p, m, s, row) =
            FileSink.create_sink_bin-HoldsRow L N integrated out_name w some_bin in
          row-IsMade w _ _ f (e ∷ p ∷ m ∷ s ∷ []) row;
      filter_made = filter-IsMade;
    }

    -- `H264_ELEMENTARY_SRC` and `VIDEO_RENDER_SINK`, not on a Tegra.
    pub stream_build :
        AreMakers N
          (H264.create_source_bin G)
          (λ out_name. VideoSink.create_sink_bin G)
          (create_filter_elements_bin K G)
    stream_build = record {
      source_made = λ location w some_bin.
          let (s, p, d, row) = H264.create_source_bin-HoldsBetween L N location w some_bin in
          between-IsMade w _ _ _ row;
      sink_made = λ out_name w some_bin.
          let (s, row) = VideoSink.create_sink_bin-HoldsRow L N w some_bin in
          row-IsMade w _ _ s [] row;
      filter_made = filter-IsMade;
    }

    -- `MULTI_FILE_SRC` and `VIDEO_RENDER_SINK` on a Tegra.
    pub tegra_build :
        (integrated : Bool)
        → AreMakers N
            (MultiFile.create_source_bin G integrated)
            (λ out_name. VideoSink.create_tegra_sink_bin G)
            (create_filter_elements_bin K G)
    tegra_build integrated = record {
      source_made = λ location w some_bin.
          let (s, p, d, row) =
            MultiFile.create_source_bin-HoldsBetween L N integrated location w some_bin in
          between-IsMade w _ _ _ row;
      sink_made = λ out_name w some_bin.
          let (t, s, row) = VideoSink.create_tegra_sink_bin-HoldsRow L N w some_bin in
          row-IsMade w _ _ t (s ∷ []) row;
      filter_made = filter-IsMade;
    }
