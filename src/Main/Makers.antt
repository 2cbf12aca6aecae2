-- ===== src/Main/Makers.antt =====
-- What `main` of src/deepstream_fpfilter_app.c asks of the functions that make its bins.
use deepstream_fpfilter.Prelude.{ℕ, ◌≢◌, List, Run, Returns}
use deepstream_fpfilter.Pipeline.Gst.{Gst}
use deepstream_fpfilter.Pipeline.Making.{IsMaking}
use deepstream_fpfilter.Pipeline.Ready.{IsMade}

-- A bin that is returned is a new element, loose, and what was loose before still is.
pub record AreMakers {G : Gst} (N : IsMaking G)
    (create_source_bin create_sink_bin : List ℕ → G.World → ℕ × G.World)
    (create_filter_elements_bin : G.World → Run (ℕ × G.World)) : Type 0 where
  pub source_made :
      (location : List ℕ) (w : G.World)
      → let (bin, w') = create_source_bin location w in bin ≢ 0 → IsMade N w w' bin
  pub sink_made :
      (out_name : List ℕ) (w : G.World)
      → let (bin, w') = create_sink_bin out_name w in bin ≢ 0 → IsMade N w w' bin
  pub filter_made :
      (w : G.World)
      → Returns (λ (bin, w'). bin ≢ 0 → IsMade N w w' bin) (create_filter_elements_bin w)
