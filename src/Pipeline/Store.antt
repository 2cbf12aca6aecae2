-- ===== src/Pipeline/Store.antt =====
-- The concrete GStreamer with pointers that are new: all that is linked or in a bin lies below the
-- next pointer. It meets also the assumptions on the calls that make elements.
use text.Mathlib.Text.{◌==◌ as str_eq}
use deepstream_fpfilter.Prelude.{
  ℕ, suc, ◌-◌, ◌/◌, String, Bool-cases, inl, inr, ◌≤◌, ◌<◌, ◌≡◌, ◌≢◌, refl, true, false, leb,
  if◌then◌else◌, arith,
}
use deepstream_fpfilter.Pipeline.Gst.{Gst, View, update, IsFree, Fits, IsDocumented}
use deepstream_fpfilter.Pipeline.Making.{IsMaking}
use deepstream_fpfilter.Pipeline.Graph.{Graph, pad_of, graph, graph-IsDocumented, graph-Fits}

-- Nothing at or above `n` is linked or in a bin.
pub record IsBounded (n : ℕ) (v : View) : Type 0 where
  pub positive : 0 < n
  pub open_end : (e : ℕ) → n ≤ e → v.next e ≡ 0
  pub unused : (e : ℕ) → n ≤ e → IsFree v.next e
  pub outside : (e : ℕ) → n ≤ e → v.parent e ≡ 0

pub record Store : Type 0 where
  pub inner : Graph
  pub bounded : IsBounded inner.fresh inner.shape

abbrev above : ℕ → ℕ → ℕ
above e n = if leb n e then suc e else n

above_keeps : (e n x : ℕ) → above e n ≤ x → n ≤ x
above_keeps e n x h = ground arith

above_past : (e n x : ℕ) → above e n ≤ x → e < x
above_past e n x h = ground arith

above_positive : (e n : ℕ) → 0 < n → 0 < above e n
above_positive e n h = ground arith

pub add-IsBounded :
    (n bin e : ℕ) (w : Graph)
    → IsBounded n w.shape
    → IsBounded (above e n) (graph.bin_add bin e w).shape
add-IsBounded n bin e w b = record {
  positive = above_positive e n b.positive;
  open_end = λ x h. ground (arith, b.open_end x (above_keeps e n x h));
  unused = λ x h y g. ground (arith, b.unused x (above_keeps e n x h) y);
  outside = λ x h. ground (arith, above_past e n x h, b.outside x (above_keeps e n x h));
}

pub remove-IsBounded :
    (n bin e : ℕ) (w : Graph) → IsBounded n w.shape → IsBounded n (graph.bin_remove bin e w).shape
remove-IsBounded n bin e w b = record {
  positive = b.positive;
  open_end = λ x h. ground (arith, b.open_end x h);
  unused = λ x h y g. ground (arith, b.positive, b.unused x h y);
  outside = λ x h. ground (arith, b.outside x h);
}

pub link-IsBounded :
    (n a c : ℕ) (w : Graph)
    → IsBounded n w.shape
    → IsBounded (above c (above a n)) (graph.link a c w).1.shape
link-IsBounded n a c w b = record {
  positive = above_positive c (above a n) (above_positive a n b.positive);
  open_end = λ x h.
      ground (arith, above_past a n x (above_keeps c (above a n) x h), b.open_end x (below x h));
  unused = λ x h y g. ground (arith, above_past c (above a n) x h, b.unused x (below x h) y);
  outside = λ x h. ground (arith, b.outside x (below x h));
}
  where
    below : (x : ℕ) → above c (above a n) ≤ x → n ≤ x
    below x h = above_keeps a n x (above_keeps c (above a n) x h)

pub unlink-IsBounded :
    (n src sink : ℕ) (w : Graph)
    → IsBounded n w.shape
    → IsBounded n (graph.pad_unlink src sink w).1.shape
unlink-IsBounded n src sink w b = record {
  positive = b.positive;
  open_end = λ x h. ground (arith, b.open_end x h);
  unused = λ x h y g. ground (arith, b.positive, b.unused x h y);
  outside = λ x h. ground (arith, b.outside x h);
}

pub suc-IsBounded : (n : ℕ) (v : View) → IsBounded n v → IsBounded (suc n) v
suc-IsBounded n v b = record {
  positive = omega arith;
  open_end = λ x h. b.open_end x (omega arith);
  unused = λ x h. b.unused x (omega arith);
  outside = λ x h. b.outside x (omega arith);
}

-- The store with the next pointer taken.
abbrev taken : Store → ℕ × Store
taken w = (
  w.inner.fresh,
  record {
    inner = record (w.inner) { fresh = suc w.inner.fresh };
    bounded = suc-IsBounded w.inner.fresh w.inner.shape w.bounded;
  },
)

abbrev with_shape : (n : ℕ) (v : View) → IsBounded n v → Store
with_shape n v b = record { inner = record { shape = v; fresh = n }; bounded = b }

abbrev pub store : Gst
store = record {
  World = Store;
  view = λ w. w.inner.shape;
  depth = 2;
  bin_new = taken;
  factory_make = λ name. taken;
  set = λ e name value w. w;
  bin_add = λ bin e w.
      with_shape (above e w.inner.fresh) (graph.bin_add bin e w.inner).shape
        (add-IsBounded w.inner.fresh bin e w.inner w.bounded);
  bin_remove = λ bin e w.
      with_shape w.inner.fresh (graph.bin_remove bin e w.inner).shape
        (remove-IsBounded w.inner.fresh bin e w.inner w.bounded);
  link = λ a c w. (
    (graph.link a c w.inner).0,
    with_shape (above c (above a w.inner.fresh)) (graph.link a c w.inner).1.shape
        (link-IsBounded w.inner.fresh a c w.inner w.bounded),
  );
  get_static_pad = λ e name w. graph.get_static_pad e name w.inner;
  add_ghost_pad = λ bin name pad w. (true, w);
  pad_unlink = λ src sink w. (
    (graph.pad_unlink src sink w.inner).0,
    with_shape w.inner.fresh (graph.pad_unlink src sink w.inner).1.shape
        (unlink-IsBounded w.inner.fresh src sink w.inner w.bounded),
  );
  set_state = λ e on w. with_shape w.inner.fresh (graph.set_state e on w.inner).shape (record {
    positive = w.bounded.positive;
    open_end = w.bounded.open_end;
    unused = w.bounded.unused;
    outside = w.bounded.outside;
  });
  send_eos = λ pad w. w;
  pad_link = λ src sink w. (
    (graph.pad_link src sink w.inner).0,
    with_shape (above ((sink - 1) / 2) (above ((src - 1) / 2) w.inner.fresh))
        (graph.pad_link src sink w.inner).1.shape
        (link-IsBounded w.inner.fresh ((src - 1) / 2) ((sink - 1) / 2) w.inner w.bounded),
  );
  get_request_pad = λ e name w. ((graph.get_request_pad e name w.inner).0, w);
  get_name = λ pad w. graph.get_name pad w.inner;
  caps_from_string = λ caps w. (1, w);
  get_bus = λ pipeline w. pipeline;
  connect = λ x f w. w;
}

pub pad_half : (e : ℕ) (name : String) → (pad_of e name - 1) / 2 ≡ e
pad_half e name = elim (Bool-cases (str_eq name "src")) [
  | inl h ↦ rw h (omega arith)
  | inr h ↦ rw h (omega arith)
]

pub store-IsDocumented : IsDocumented store
store-IsDocumented = record {
  bin_add-view = λ bin e w h. graph-IsDocumented.bin_add-view bin e w.inner h;
  bin_remove-view = λ bin e w h. graph-IsDocumented.bin_remove-view bin e w.inner h;
  link-view = λ a c w. graph-IsDocumented.link-view a c w.inner;
  pad_unlink_linked =
      λ a c w h g src sink. graph-IsDocumented.pad_unlink_linked a c w.inner h g src sink;
  pad_unlink_other = λ a c w h. graph-IsDocumented.pad_unlink_other a c w.inner h;
  set_state-view = λ e on w. refl;
  send_eos-view = λ pad w. refl;
}

-- Any two elements fit.
pub store-Fits : (a b : ℕ) → Fits store a b
store-Fits a b w open_end free same = graph-Fits a b w.inner open_end free same

pub below_above : (e n x : ℕ) → x < n → x < above e n
below_above e n x h = ground arith

pub linked_below :
    (a b : ℕ) (w : Store) (e : ℕ) → e < w.inner.fresh → e < above b (above a w.inner.fresh)
linked_below a b w e h = below_above b (above a w.inner.fresh) e (below_above a w.inner.fresh e h)

pub fresh_some : (w : Store) → w.inner.fresh ≢ 0
fresh_some w e = omega (arith, w.bounded.positive)

pub pad_linked :
    (src sink : ℕ) (w : Graph)
    → (graph.pad_link src sink w).1.shape ≡ record (w.shape) {
      next =
          if (graph.pad_link src sink w).0
          then update w.shape.next ((src - 1) / 2) ((sink - 1) / 2)
          else w.shape.next;
    }
pad_linked src sink w = ground arith

unfoldable pub store-IsMaking : IsMaking store
store-IsMaking = record {
  Exists = λ w e. e < w.inner.fresh;
  loose = λ w e h g. (
    w.bounded.open_end e (omega arith),
    w.bounded.unused e (omega arith),
    w.bounded.outside e (omega arith),
  );
  made_new = λ name w h. ((λ g. omega arith), omega arith);
  made_keeps = λ name w e h. omega arith;
  bin_new-New = λ w. (fresh_some w, (λ g. omega arith), omega arith);
  bin_new_keeps = λ w e h. omega arith;
  set_keeps = λ x name value w e h. h;
  bin_add_keeps = λ bin x w e h. below_above x w.inner.fresh e h;
  link_keeps = λ a b w e h. linked_below a b w e h;
  pad_link_keeps = λ src sink w e h. linked_below ((src - 1) / 2) ((sink - 1) / 2) w e h;
  request_keeps = λ x name w e h. h;
  bin_remove_keeps = λ bin x w e inside ne h. h;
  pad_unlink_keeps = λ src sink w e h. h;
  send_eos_keeps = λ pad w e h. h;
  set_state_keeps = λ x on w e h. h;
  add_ghost_pad_keeps = λ bin name pad w e h. h;
  caps_keeps = λ caps w e h. h;
  connect_keeps = λ x f w e h. h;
  caps-view = λ caps w. refl;
  connect-view = λ x f w. refl;
  request-view = λ e name w. refl;
  owner = λ w pad. (pad - 1) / 2;
  static_pad-owner = λ e name w h. pad_half e name;
  request_pad-owner = λ e name w h. pad_half e name;
  pad_link-view = λ src sink w. pad_linked src sink w.inner;
  made-view = λ name w. refl;
  bin_new-view = λ w. refl;
  set-view = λ e name value w. refl;
  add_ghost_pad-view = λ bin name pad w. refl;
}

-- Nothing but the next pointer.
abbrev pub empty_store : Store
empty_store =
    with_shape 1 (record { next = λ x. 0; parent = λ x. 0; playing = λ x. false })
      (record {
        positive = omega arith;
        open_end = λ x h. refl;
        unused = λ x h y g. omega arith;
        outside = λ x h. refl;
      })
