-- ===== src/Pipeline/Views.antt =====
-- The calls of GStreamer as changes of a known view.
use deepstream_fpfilter.Prelude.{ℕ, ◌≡◌, ◌≢◌, Bool, true, false, ◌==◌, if◌then◌else◌}
use deepstream_fpfilter.Pipeline.Gst.{Gst, View, IsDocumented, IsFree, Fits, spread, update}

module _ (G : Gst) (L : IsDocumented G) (w : G.World) (v : View) (at_v : G.view w ≡ v) where
  pub bin_add_to :
      (bin e : ℕ)
      → v.parent e ≡ 0
      → G.view (G.bin_add bin e w) ≡ record v { parent = update v.parent e bin }
  bin_add_to bin e h = rw at_v at (L.bin_add-view bin e w (rw at_v h))

  pub bin_remove_from :
      (bin e : ℕ)
      → v.parent e ≡ bin
      → G.view (G.bin_remove bin e w) ≡ record v {
        parent = update v.parent e 0;
        next = λ x. if x == e then 0 else if v.next x == e then 0 else v.next x;
      }
  bin_remove_from bin e h = rw at_v at (L.bin_remove-view bin e w (rw at_v h))

  pub link_done :
      (a b : ℕ)
      → (G.link a b w).0 ≡ true
      → G.view (G.link a b w).1 ≡ record v { next = update v.next a b }
  link_done a b ok = rw (at_v, ok) at (L.link-view a b w)

  pub link_refused : (a b : ℕ) → (G.link a b w).0 ≡ false → G.view (G.link a b w).1 ≡ v
  link_refused a b no_link = rw (at_v, no_link) at (L.link-view a b w)

  pub link_to :
      (a b : ℕ)
      → Fits G a b
      → v.next a ≡ 0
      → IsFree v.next b
      → v.parent a ≡ v.parent b
      → ((G.link a b w).0 ≡ true)
        × (G.view (G.link a b w).1 ≡ record v { next = update v.next a b })
  link_to a b fits h f same =
      let ok = fits w (rw at_v h) (rw at_v f) (rw at_v same) in (ok, link_done a b ok)

  pub pad_unlink_from :
      (a b : ℕ)
      → v.next a ≡ b
      → b ≢ 0
      → G.get_static_pad a "src" w ≢ 0
      → G.get_static_pad b "sink" w ≢ 0
      → let r = G.pad_unlink (G.get_static_pad a "src" w) (G.get_static_pad b "sink" w) w in
        (r.0 ≡ true) × (G.view r.1 ≡ record v { next = update v.next a 0 })
  pad_unlink_from a b h g src sink = rw at_v at (L.pad_unlink_linked a b w (rw at_v h) g src sink)

  pub pad_unlink_refused :
      (a b : ℕ)
      → v.next a ≢ b
      → let r = G.pad_unlink (G.get_static_pad a "src" w) (G.get_static_pad b "sink" w) w in
        (r.0 ≡ false) × (G.view r.1 ≡ v)
  pad_unlink_refused a b h = rw at_v at (L.pad_unlink_other a b w (rw at_v h))

  pub set_state_of :
      (e : ℕ) (on : Bool)
      → G.view (G.set_state e on w) ≡ record v { playing = spread G.depth v.parent e on v.playing }
  set_state_of e on = rw at_v at (L.set_state-view e on w)
