-- ===== src/Pipeline/Making.antt =====
-- What the documentation of GStreamer says of the calls that make elements and set their properties.
use deepstream_fpfilter.Prelude.{ℕ, Bool, ◌≡◌, ◌≢◌, String, if◌then◌else◌}
use deepstream_fpfilter.Pipeline.Gst.{Gst, Value, Callback, IsFree, update}

pub record IsMaking (G : Gst) : Type 1 where
  -- the element has been made before
  pub Exists : G.World → ℕ → Type 0
  -- an element that is not there yet is linked to nothing and in no bin
  pub loose :
      (w : G.World) (e : ℕ)
      → ¬ Exists w e
      → e ≢ 0
      → ((G.view w).next e ≡ 0) × IsFree (G.view w).next e × ((G.view w).parent e ≡ 0)
  -- `gst_element_factory_make` gives a new element or NULL
  pub made_new :
      (name : String) (w : G.World)
      → (G.factory_make name w).0 ≢ 0
      → (¬ Exists w (G.factory_make name w).0)
        × Exists (G.factory_make name w).1 (G.factory_make name w).0
  pub made_keeps :
      (name : String) (w : G.World) (e : ℕ) → Exists w e → Exists (G.factory_make name w).1 e
  pub made-view : (name : String) (w : G.World) → G.view (G.factory_make name w).1 ≡ G.view w
  -- `gst_bin_new` and `gst_pipeline_new` give a new bin
  pub bin_new-New :
      (w : G.World)
      → ((G.bin_new w).0 ≢ 0)
        × (¬ Exists w (G.bin_new w).0)
        × Exists (G.bin_new w).1 (G.bin_new w).0
  -- these calls free no element
  pub bin_new_keeps : (w : G.World) (e : ℕ) → Exists w e → Exists (G.bin_new w).1 e
  pub set_keeps :
      (x : ℕ) (name : String) (value : Value) (w : G.World) (e : ℕ)
      → Exists w e
      → Exists (G.set x name value w) e
  pub bin_add_keeps : (bin x : ℕ) (w : G.World) (e : ℕ) → Exists w e → Exists (G.bin_add bin x w) e
  pub link_keeps : (a b : ℕ) (w : G.World) (e : ℕ) → Exists w e → Exists (G.link a b w).1 e
  pub pad_link_keeps :
      (src sink : ℕ) (w : G.World) (e : ℕ) → Exists w e → Exists (G.pad_link src sink w).1 e
  pub request_keeps :
      (x : ℕ) (name : String) (w : G.World) (e : ℕ)
      → Exists w e
      → Exists (G.get_request_pad x name w).1 e
  -- `gst_bin_remove` may free the element that it removes, and what is in that; what else is in the
  -- bin is kept
  pub bin_remove_keeps :
      (bin x : ℕ) (w : G.World) (e : ℕ)
      → (G.view w).parent e ≡ bin
      → e ≢ x
      → Exists w e
      → Exists (G.bin_remove bin x w) e
  pub pad_unlink_keeps :
      (src sink : ℕ) (w : G.World) (e : ℕ) → Exists w e → Exists (G.pad_unlink src sink w).1 e
  pub send_eos_keeps : (pad : ℕ) (w : G.World) (e : ℕ) → Exists w e → Exists (G.send_eos pad w) e
  pub set_state_keeps :
      (x : ℕ) (on : Bool) (w : G.World) (e : ℕ) → Exists w e → Exists (G.set_state x on w) e
  pub add_ghost_pad_keeps :
      (bin : ℕ) (name : String) (pad : ℕ) (w : G.World) (e : ℕ)
      → Exists w e
      → Exists (G.add_ghost_pad bin name pad w).1 e
  pub caps_keeps :
      (caps : String) (w : G.World) (e : ℕ) → Exists w e → Exists (G.caps_from_string caps w).1 e
  pub connect_keeps :
      (x : ℕ) (f : Callback) (w : G.World) (e : ℕ) → Exists w e → Exists (G.connect x f w) e
  pub caps-view : (caps : String) (w : G.World) → G.view (G.caps_from_string caps w).1 ≡ G.view w
  pub connect-view : (x : ℕ) (f : Callback) (w : G.World) → G.view (G.connect x f w) ≡ G.view w
  pub request-view :
      (e : ℕ) (name : String) (w : G.World) → G.view (G.get_request_pad e name w).1 ≡ G.view w
  -- the element that a pad belongs to
  pub owner : G.World → ℕ → ℕ
  pub static_pad-owner :
      (e : ℕ) (name : String) (w : G.World)
      → G.get_static_pad e name w ≢ 0
      → owner w (G.get_static_pad e name w) ≡ e
  pub request_pad-owner :
      (e : ℕ) (name : String) (w : G.World)
      → (G.get_request_pad e name w).0 ≢ 0
      → owner (G.get_request_pad e name w).1 (G.get_request_pad e name w).0 ≡ e
  -- `gst_pad_link` links the two pads, or does nothing
  pub pad_link-view :
      (src sink : ℕ) (w : G.World)
      → G.view (G.pad_link src sink w).1 ≡ record (G.view w) {
        next =
            if (G.pad_link src sink w).0
            then update (G.view w).next (owner w src) (owner w sink)
            else (G.view w).next;
      }
  pub bin_new-view : (w : G.World) → G.view (G.bin_new w).1 ≡ G.view w
  pub set-view :
      (e : ℕ) (name : String) (value : Value) (w : G.World)
      → G.view (G.set e name value w) ≡ G.view w
  pub add_ghost_pad-view :
      (bin : ℕ) (name : String) (pad : ℕ) (w : G.World)
      → G.view (G.add_ghost_pad bin name pad w).1 ≡ G.view w
