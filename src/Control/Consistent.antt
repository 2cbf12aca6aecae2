-- ===== src/Control/Consistent.antt =====
-- The switch, the bin and the info for the pipeline agree.
use deepstream_fpfilter.Prelude.{
  ℕ, ◌≡◌, ◌≢◌, true, false, if_cases, arith, Run, done, Returns, Returns->>=, ◌>>=◌,
}
use deepstream_fpfilter.Pipeline.Gst.{Gst}
use deepstream_fpfilter.Control.App.{App, enable_fpfilter, disable_fpfilter, with_bin}

-- The filter is enabled exactly if there is a bin, and the info names the bin.
pub record IsConsistent {World Loop : Type 0} (a : App World Loop) : Type 0 where
  pub named : a.fp_filter_dynamic_link_info.main_element ≡ a.fpfilter_bin
  pub on_bin : a.is_fpfilter_enabled ≡ true → a.fpfilter_bin ≢ 0
  pub off_bin : a.is_fpfilter_enabled ≡ false → a.fpfilter_bin ≡ 0

module _ (G : Gst) (create : G.World → Run (ℕ × G.World)) {Loop : Type 0} where
  with_bin-IsConsistent :
      (a : App G.World Loop) (r : ℕ × G.World)
      → IsConsistent a
      → a.is_fpfilter_enabled ≡ false
      → IsConsistent (with_bin G a r)
  unfolding with_bin
  with_bin-IsConsistent a (bin, world) v off = ground arith

  pub disable_fpfilter-IsConsistent :
      (a : App G.World Loop) → IsConsistent a → IsConsistent (disable_fpfilter G a)
  unfolding disable_fpfilter
  disable_fpfilter-IsConsistent a v = ground arith

  pub enable_fpfilter-IsConsistent :
      (a : App G.World Loop) → IsConsistent a → Returns IsConsistent (enable_fpfilter G create a)
  unfolding enable_fpfilter
  enable_fpfilter-IsConsistent a v =
      if_cases (Returns IsConsistent) a.is_fpfilter_enabled (done a)
        (create a.pads.world >>= λ r. done (with_bin G a r)) (λ on. v)
        (λ off.
          Returns->>= IsConsistent (λ r. with_bin-IsConsistent a r v off) (create a.pads.world))
