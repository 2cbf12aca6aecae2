-- ===== src/Control/Race.antt =====
-- A disable and an enable that follow each other faster than the pipeline: the probes of both meet.
use mathlib.Core.Path.{subst}
use deepstream_fpfilter.Prelude.{
  ℕ, suc, ◌+◌, ◌≡◌, ◌≢◌, refl, sym, ap, ◌∙◌, true, false, [], ◌∷◌, ◌++◌, arith, Run, done,
}
use deepstream_fpfilter.Pipeline.Gst.{Gst, View, IsDocumented, Fits, update}
use deepstream_fpfilter.Pipeline.Link.{
  LinkUnlinkInfo, Pads, pad_probe, add_elem_probe, add_probe, add_elem_probe_cb,
  remove_elem_probe_cb, pad_probe_cb,
}
use deepstream_fpfilter.Pipeline.Making.{IsMaking}
use deepstream_fpfilter.Pipeline.Ready.{IsMade}
use deepstream_fpfilter.Pipeline.Splice.{HasPads, add_elem_probe_cb_refused}
use deepstream_fpfilter.Pipeline.Unsplice.{IsSpliced, unspliced, remove_elem_probe_cb_unsplices}
use deepstream_fpfilter.Control.App.{App, enable_fpfilter, disable_fpfilter, with_bin}

module _ (G : Gst) (L : IsDocumented G) (i : LinkUnlinkInfo) (P : HasPads G i) where
  open i use {main_element as m, main_prev_element as p, main_next_element as n}

  pub pad_probe_cb-view :
      (id : ℕ) (s : Pads G.World) → G.view (pad_probe_cb G id i s).1.world ≡ G.view s.world
  unfolding pad_probe_cb
  pad_probe_cb-view id s = L.send_eos-view (G.get_static_pad m "sink" s.world) s.world

  -- The three probes in the order in which they fire: the block for the removal, the block for the
  -- new bin `bin`, and the end of the stream at the old bin.
  abbrev pub probes_fire : ℕ → ℕ → Pads G.World → Pads G.World
  probes_fire id bin s =
      let s₁ = (pad_probe_cb G id i s).1 in
      let s₂ = (add_elem_probe_cb G (id + 1) (record i { main_element = bin }) s₁).1 in
      (remove_elem_probe_cb G true (id + 2) i s₂).1

  add_bin-IsSpliced :
      (v : View) (bin : ℕ)
      → IsSpliced i v
      → v.parent bin ≡ 0
      → i.pipeline ≢ 0
      → IsSpliced i (record v { parent = update v.parent bin i.pipeline })
  add_bin-IsSpliced v bin h alone g = record {
    from_prev = h.from_prev;
    to_next = h.to_next;
    some_main = h.some_main;
    some_next = h.some_next;
    apart = h.apart;
    only_main = h.only_main;
    only_next = h.only_next;
    inside = ground (arith, h.inside);
    prev_inside = ground (arith, h.prev_inside);
    next_inside = ground (arith, h.next_inside);
    apart_next = h.apart_next;
  }

  probes_fire_lem :
      Fits G p n
      → (id bin : ℕ) (s : Pads G.World) → IsSpliced i (G.view s.world)
      → (G.view s.world).parent bin ≡ 0
      → i.pipeline ≢ 0
      → (G.view (probes_fire id bin s).world)
        ≡ unspliced G.depth i
            (record (G.view s.world) { parent = update (G.view s.world).parent bin i.pipeline })
  probes_fire_lem F id bin s h alone g =
      let i' : LinkUnlinkInfo = record i { main_element = bin } in
      let s₁ = (pad_probe_cb G id i s).1 in
      let same : G.view s₁.world ≡ G.view s.world = pad_probe_cb-view id s in
      let refused =
        (add_elem_probe_cb_refused G L i' (record { src = P.src; sink = P.sink }) (id + 1) s₁
          (rw same alone) (rw same (λ e. h.apart_next (sym h.from_prev ∙ e)))).1 in
      let at₂ : G.view (add_elem_probe_cb G (id + 1) i' s₁).1.world
          ≡ record (G.view s.world) { parent = update (G.view s.world).parent bin i.pipeline } =
        refused ∙ ap {A = View} (λ v. record v { parent = update v.parent bin i.pipeline }) same in
      (remove_elem_probe_cb_unsplices G L i F (id + 2) (add_elem_probe_cb G (id + 1) i' s₁).1
        (rw at₂ (add_bin-IsSpliced (G.view s.world) bin h alone g))).1
      ∙ ap (unspliced G.depth i) at₂

module _ (G : Gst) (bin : ℕ) (w : G.World) {Loop : Type 0} where
  -- The application after a `disable_fpfilter` and an `enable_fpfilter`.
  abbrev toggled : App G.World Loop → App G.World Loop
  toggled a = with_bin G (disable_fpfilter G a) (bin, w)

  module _ (a : App G.World Loop) (on : a.is_fpfilter_enabled ≡ true) (some_bin : bin ≢ 0)
      (some_pad : (w : G.World)
        → G.get_static_pad a.fp_filter_dynamic_link_info.main_prev_prev_element "src" w ≢ 0) where
    disabled : disable_fpfilter G a ≡ record a {
      pads = record (a.pads) {
        probes = a.pads.probes ++ ((a.pads.next_id, pad_probe a.fp_filter_dynamic_link_info) ∷ []);
        next_id = suc a.pads.next_id;
        copies = a.pads.copies + 1;
      };
      is_fpfilter_enabled = false;
      save_fpfilter_images = false;
      fpfilter_bin = 0;
      fp_filter_dynamic_link_info = record (a.fp_filter_dynamic_link_info) { main_element = 0 };
    }
    unfolding disable_fpfilter add_probe
    disabled = ground (arith, some_pad a.pads.world)

    toggled_lem : toggled a ≡ record a {
      pads = record {
        world = w;
        probes =
            (a.pads.probes ++ ((a.pads.next_id, pad_probe a.fp_filter_dynamic_link_info) ∷ []))
            ++ ((
              suc a.pads.next_id,
              add_elem_probe (record (a.fp_filter_dynamic_link_info) { main_element = bin }),
            )
                ∷ []);
        next_id = suc (suc a.pads.next_id);
        copies = a.pads.copies + 1 + 1;
      };
      is_fpfilter_enabled = true;
      save_fpfilter_images = false;
      fpfilter_bin = bin;
      fp_filter_dynamic_link_info = record (a.fp_filter_dynamic_link_info) { main_element = bin };
    }
    unfolding with_bin add_probe
    toggled_lem = rw disabled (ground (arith, some_pad w))

-- What stands between its neighbours still does once another bin is made.
made-IsSpliced :
    {G : Gst} (N : IsMaking G) (i : LinkUnlinkInfo) (w w' : G.World) (bin : ℕ)
    → N.Exists w i.main_element
    → N.Exists w i.main_prev_element
    → N.Exists w i.main_next_element
    → IsMade N w w' bin
    → IsSpliced i (G.view w)
    → IsSpliced i (G.view w')
made-IsSpliced N i w w' bin main prev next m h = record {
  from_prev = m.same_next i.main_prev_element prev ∙ h.from_prev;
  to_next = m.same_next i.main_element main ∙ h.to_next;
  some_main = h.some_main;
  some_next = h.some_next;
  apart = h.apart;
  only_main = λ x e. h.only_main x (m.same_leads x i.main_element main e);
  only_next = λ x e. h.only_next x (m.same_leads x i.main_next_element next e);
  inside = m.same_parent i.main_element main ∙ h.inside;
  prev_inside = m.same_parent i.main_prev_element prev ∙ h.prev_inside;
  next_inside = m.same_parent i.main_next_element next ∙ h.next_inside;
  apart_next = h.apart_next;
}

module _ {G : Gst} (L : IsDocumented G) (N : IsMaking G) (create : G.World → Run (ℕ × G.World))
    {Loop : Type 0} where
  -- If an enabled filter, whose bin stands in the pipeline between its neighbours with their pads
  -- there, is disabled and enabled again before the removal of the bin is through, the new bin can
  -- be made, and the pads of the neighbours fit, then the new bin is lost. The application takes
  -- the filter to be enabled with the new bin, and on the pad wait the block for the removal and
  -- the block for the new bin; once these and the probe for the end of the stream have fired in
  -- that order, the neighbours are linked to one another, past both bins.
  pub enable_lost :
      (a : App G.World Loop) (bin : ℕ) (w : G.World)
      → let i = a.fp_filter_dynamic_link_info in
        (P : HasPads G i)
        → Fits G i.main_prev_element i.main_next_element
        → ((w : G.World) → G.get_static_pad i.main_prev_prev_element "src" w ≢ 0)
        → a.is_fpfilter_enabled ≡ true
        → IsSpliced i (G.view a.pads.world)
        → N.Exists a.pads.world i.main_element
        → N.Exists a.pads.world i.main_prev_element
        → N.Exists a.pads.world i.main_next_element
        → i.pipeline ≢ 0
        → create a.pads.world ≡ done (bin, w)
        → IsMade N a.pads.world w bin
        → (b : App G.World Loop) × (enable_fpfilter G create (disable_fpfilter G a) ≡ done b)
          × (b.is_fpfilter_enabled ≡ true)
          × (b.fpfilter_bin ≡ bin)
          × (b.pads.probes
              ≡ (a.pads.probes ++ ((a.pads.next_id, pad_probe i) ∷ []))
                ++ ((suc a.pads.next_id, add_elem_probe (record i { main_element = bin })) ∷ []))
          × ((G.view (probes_fire G L i P a.pads.next_id bin b.pads).world).next i.main_prev_element
              ≡ i.main_next_element)
  unfolding enable_fpfilter
  enable_lost a bin w P F some_pad on h main prev next g made m =
      let i = a.fp_filter_dynamic_link_info in
      let b = toggled G bin w a in
      let e = toggled_lem G bin w a on m.loose.some some_pad in
      let same : b.pads.world ≡ w = ap {A = App G.World Loop} (λ x. x.pads.world) e in
      let spliced = made-IsSpliced N i a.pads.world w bin main prev next m h in
      (
        b,
        rw (disabled G bin w a on m.loose.some some_pad, made) refl,
        ap {A = App G.World Loop} (λ x. x.is_fpfilter_enabled) e,
        ap {A = App G.World Loop} (λ x. x.fpfilter_bin) e,
        ap {A = App G.World Loop} (λ x. x.pads.probes) e,
        ap {A = View} (λ x. x.next i.main_prev_element)
              (probes_fire_lem G L i P F a.pads.next_id bin b.pads
                (subst (λ x. IsSpliced i (G.view x)) (sym same) spliced)
                (subst (λ x. (G.view x).parent bin ≡ 0) (sym same) m.loose.alone) g)
            ∙ ground arith,
      )
