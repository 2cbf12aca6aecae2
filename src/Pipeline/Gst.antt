-- ===== src/Pipeline/Gst.antt =====
-- The calls of GStreamer that the program makes, as a parameter. Elements, bins and pads are pointers,
-- that is numbers, and NULL is 0.
use deepstream_fpfilter.Prelude.{
  ℕ, zero, suc, ◌≡◌, ◌≢◌, Bool, Option, List, true, false, String, ◌==◌, if◌then◌else◌,
}
use deepstream_fpfilter.Prelude.Int.{ℤ}

abbrev pub update {ℓ} : {A : Type ℓ} → (ℕ → A) → ℕ → A → ℕ → A
update f k v x = if x == k then v else f x

-- A value of a property.
pub data Value : Type 0 where
  -- the bytes of a text, or NULL
  string : Option (List ℕ) → Value
  int : ℤ → Value
  object : ℕ → Value

-- The functions of the program that GStreamer calls back.
pub data Callback : Type 0 where
  qtdemux_new_pad_cb seek_query_drop_prob after_filter_buffer_probe bus_call : Callback

pub record View : Type 0 where
  -- the element whose sink pad the source pad of an element is linked to, or NULL
  pub next : ℕ → ℕ
  -- the bin that an element is in, or NULL
  pub parent : ℕ → ℕ
  -- whether an element has been asked to play, by itself or by a bin that it is in
  pub playing : ℕ → Bool

-- Whether `x` is `e` or in it, where bins nest `depth` deep at most.
abbrev pub within : ℕ → (ℕ → ℕ) → ℕ → ℕ → Bool
within zero parent e x = if x == 0 then false else x == e
within (suc depth) parent e x =
    let rest = within depth parent e (parent x) in
    if x == 0 then false else if x == e then true else rest

-- The states once `e` has been set to one, which a bin passes on to what is in it.
abbrev pub spread : ℕ → (ℕ → ℕ) → ℕ → Bool → (ℕ → Bool) → ℕ → Bool
spread depth parent e on playing x = if within depth parent e x then on else playing x

pub record Gst : Type 1 where
  pub World : Type 0
  pub view : World → View
  -- how deep bins nest
  pub depth : ℕ
  pub bin_new : World → ℕ × World
  pub factory_make : String → World → ℕ × World
  pub set : ℕ → String → Value → World → World
  pub bin_add : ℕ → ℕ → World → World
  pub bin_remove : ℕ → ℕ → World → World
  pub link : ℕ → ℕ → World → Bool × World
  pub get_static_pad : ℕ → String → World → ℕ
  pub add_ghost_pad : ℕ → String → ℕ → World → Bool × World
  pub pad_unlink : ℕ → ℕ → World → Bool × World
  -- `true` for `GST_STATE_PLAYING`, `false` for `GST_STATE_NULL`
  pub set_state : ℕ → Bool → World → World
  pub send_eos : ℕ → World → World
  pub pad_link : ℕ → ℕ → World → Bool × World
  pub get_request_pad : ℕ → String → World → ℕ × World
  pub get_name : ℕ → World → String
  pub caps_from_string : String → World → ℕ × World
  pub get_bus : ℕ → World → ℕ
  -- to connect a callback to a signal, a probe to a pad, or a watch to a bus
  pub connect : ℕ → Callback → World → World

-- Nothing is linked to the sink pad of `b`.
abbrev pub IsFree : (ℕ → ℕ) → ℕ → Type 0
IsFree next b = (x : ℕ) → next x ≢ b

-- The pads of the two elements fit: in one bin, `gst_element_link` links the two wherever both are
-- open.
abbrev pub Fits : Gst → ℕ → ℕ → Type 0
Fits G a b =
    (w : G.World)
    → (G.view w).next a ≡ 0
    → IsFree (G.view w).next b
    → (G.view w).parent a ≡ (G.view w).parent b
    → (G.link a b w).0 ≡ true

-- What the documentation of these calls says of links, bins and states.
pub record IsDocumented (G : Gst) : Type 0 where
  pub bin_add-view :
      (bin e : ℕ) (w : G.World)
      → (G.view w).parent e ≡ 0
      → G.view (G.bin_add bin e w) ≡ record (G.view w) { parent = update (G.view w).parent e bin }
  -- `gst_bin_remove` unlinks the element's pads
  pub bin_remove-view :
      (bin e : ℕ) (w : G.World)
      → (G.view w).parent e ≡ bin
      → G.view (G.bin_remove bin e w) ≡ record (G.view w) {
        parent = update (G.view w).parent e 0;
        next = λ x. if x == e then 0 else if (G.view w).next x == e then 0 else (G.view w).next x;
      }
  -- `gst_element_link` links the two elements and returns TRUE, or does not and returns FALSE
  pub link-view :
      (a b : ℕ) (w : G.World)
      → G.view (G.link a b w).1 ≡ record (G.view w) {
        next = if (G.link a b w).0 then update (G.view w).next a b else (G.view w).next;
      }
  -- `gst_pad_unlink` returns FALSE if the pads are not linked to one another
  pub pad_unlink_linked :
      (a b : ℕ) (w : G.World)
      → (G.view w).next a ≡ b
      → b ≢ 0
      → G.get_static_pad a "src" w ≢ 0
      → G.get_static_pad b "sink" w ≢ 0
      → let r = G.pad_unlink (G.get_static_pad a "src" w) (G.get_static_pad b "sink" w) w in
        (r.0 ≡ true) × (G.view r.1 ≡ record (G.view w) { next = update (G.view w).next a 0 })
  pub pad_unlink_other :
      (a b : ℕ) (w : G.World)
      → (G.view w).next a ≢ b
      → let r = G.pad_unlink (G.get_static_pad a "src" w) (G.get_static_pad b "sink" w) w in
        (r.0 ≡ false) × (G.view r.1 ≡ G.view w)
  -- the state of a bin is passed on to what is in it
  pub set_state-view :
      (e : ℕ) (on : Bool) (w : G.World)
      → G.view (G.set_state e on w)
        ≡ record (G.view w) { playing = spread G.depth (G.view w).parent e on (G.view w).playing }
  pub send_eos-view : (pad : ℕ) (w : G.World) → G.view (G.send_eos pad w) ≡ G.view w
