-- ===== src/Pipeline/Graph.antt =====
-- A concrete GStreamer: nothing but the links, the bins and the states of elements. It meets the
-- assumptions on the calls, so that the theorems about them can be applied.
use text.Mathlib.Text.{◌==◌ as str_eq}
use deepstream_fpfilter.Prelude.{
  ℕ, suc, ◌+◌, ◌-◌, ◌*◌, ◌/◌, ◌≡◌, refl, Bool, true, false, String, ◌==◌, if◌then◌else◌, arith,
}
use deepstream_fpfilter.Pipeline.Gst.{Gst, View, IsDocumented, Fits, spread, update}

-- The view, and the next pointer that is free.
pub record Graph : Type 0 where
  pub shape : View
  pub fresh : ℕ

abbrev pub pad_of : ℕ → String → ℕ
pad_of e name = 2 * e + (if str_eq name "src" then 1 else 2)

abbrev graph_bin_add : ℕ → ℕ → View → View
graph_bin_add bin e v = if v.parent e == 0 then record v { parent = update v.parent e bin } else v

abbrev graph_bin_remove : ℕ → ℕ → View → View
graph_bin_remove bin e v =
    if v.parent e == bin
    then record v {
      parent = update v.parent e 0;
      next = λ x. if x == e then 0 else if v.next x == e then 0 else v.next x;
    }
    else v

abbrev graph_unlink : ℕ → ℕ → Graph → Bool × Graph
graph_unlink a b w =
    if w.shape.next a == b
    then (true, record w { shape = record (w.shape) { next = update w.shape.next a 0 } })
    else (false, w)

abbrev graph_link : ℕ → ℕ → Graph → Bool × Graph
graph_link a b w =
    if w.shape.next a == 0
    then (true, record w { shape = record (w.shape) { next = update w.shape.next a b } })
    else (false, w)

abbrev pub graph : Gst
graph = record {
  World = Graph;
  view = λ w. w.shape;
  depth = 2;
  bin_new = λ w. (w.fresh, record w { fresh = suc w.fresh });
  factory_make = λ name w. (w.fresh, record w { fresh = suc w.fresh });
  set = λ e name value w. w;
  bin_add = λ bin e w. record w { shape = graph_bin_add bin e w.shape };
  bin_remove = λ bin e w. record w { shape = graph_bin_remove bin e w.shape };
  link = graph_link;
  get_static_pad = λ e name w. pad_of e name;
  add_ghost_pad = λ bin name pad w. (true, w);
  pad_unlink = λ src sink w. graph_unlink ((src - 1) / 2) ((sink - 2) / 2) w;
  set_state = λ e on w. record w {
    shape = record (w.shape) { playing = spread 2 w.shape.parent e on w.shape.playing };
  };
  send_eos = λ pad w. w;
  pad_link = λ src sink w. graph_link ((src - 1) / 2) ((sink - 1) / 2) w;
  get_request_pad = λ e name w. (pad_of e name, w);
  get_name = λ pad w. "video_0";
  caps_from_string = λ caps w. (1, w);
  get_bus = λ pipeline w. pipeline;
  connect = λ x f w. w;
}

src_half : (a : ℕ) → (pad_of a "src" - 1) / 2 ≡ a
src_half a = omega arith

sink_half : (b : ℕ) → (pad_of b "sink" - 2) / 2 ≡ b
sink_half b = omega arith

pub graph-IsDocumented : IsDocumented graph
graph-IsDocumented = record {
  bin_add-view = λ bin e w h. ground arith;
  bin_remove-view = λ bin e w h. ground arith;
  link-view = λ a b w. ground arith;
  pad_unlink_linked = λ a b w h g src sink. rw (src_half a, sink_half b) (ground arith);
  pad_unlink_other = λ a b w h. rw (src_half a, sink_half b) (ground arith);
  set_state-view = λ e on w. refl;
  send_eos-view = λ pad w. refl;
}

-- Any two elements fit.
pub graph-Fits : (a b : ℕ) → Fits graph a b
graph-Fits a b w open_end free same = ground (arith, open_end)
