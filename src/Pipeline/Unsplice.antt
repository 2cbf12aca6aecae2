-- ===== src/Pipeline/Unsplice.antt =====
-- What the removal probe does to the links of the pipeline, and that it undoes the splice.
use mathlib.Core.Path.{fun_ext}
use deepstream_fpfilter.Prelude.{
  ℕ, ◌-◌, ◌≡◌, ◌≢◌, refl, ap, ◌∙◌, Bool-cases, inl, inr, true, false, ◌==◌, if◌then◌else◌, arith,
}
use deepstream_fpfilter.Pipeline.Gst.{Gst, View, IsDocumented, IsFree, Fits, within, spread, update}
use deepstream_fpfilter.Pipeline.Link.{
  LinkUnlinkInfo, Pads, probe_drop, remove_probe, add_elem_probe_cb, remove_elem_probe_cb,
}
use deepstream_fpfilter.Pipeline.Views.{bin_remove_from, link_to, set_state_of}
use deepstream_fpfilter.Pipeline.Splice.{
  spliced, IsSpliceable, HasPads, FitsBetween, main-ne-next, prev-ne-main,
  add_elem_probe_cb_splices,
}

-- The view once the main element is out and its neighbours are linked.
abbrev pub unspliced : ℕ → LinkUnlinkInfo → View → View
unspliced depth i v = record {
  next = update (update v.next i.main_element 0) i.main_prev_element i.main_next_element;
  parent = update v.parent i.main_element 0;
  playing = spread depth v.parent i.main_element false v.playing;
}

-- The main element stands between its neighbours, and nothing else is linked to it or to the next.
pub record IsSpliced (i : LinkUnlinkInfo) (v : View) : Type 0 where
  pub from_prev : v.next i.main_prev_element ≡ i.main_element
  pub to_next : v.next i.main_element ≡ i.main_next_element
  pub some_main : i.main_element ≢ 0
  pub some_next : i.main_next_element ≢ 0
  pub apart : i.main_prev_element ≢ i.main_element
  pub only_main : (x : ℕ) → v.next x ≡ i.main_element → x ≡ i.main_prev_element
  pub only_next : (x : ℕ) → v.next x ≡ i.main_next_element → x ≡ i.main_element
  pub inside : v.parent i.main_element ≡ i.pipeline
  pub prev_inside : v.parent i.main_prev_element ≡ i.pipeline
  pub next_inside : v.parent i.main_next_element ≡ i.pipeline
  pub apart_next : i.main_element ≢ i.main_next_element

module _ (i : LinkUnlinkInfo) (v : View) (h : IsSpliced i v) where
  open i use {main_element as m, main_prev_element as p, main_next_element as n}

  abbrev cut : ℕ → ℕ
  cut x = if x == m then 0 else if v.next x == m then 0 else v.next x

  cut_prev : cut p ≡ 0
  cut_prev = ground (arith, h.from_prev)

  cut-IsFree_next : IsFree cut n
  cut-IsFree_next x e = ground (arith, h.only_next x, h.some_next)

  cut_next : (depth x : ℕ) → update cut p n x ≡ (unspliced depth i v).next x
  cut_next depth x = ground (arith, h.only_main x)

module _ (G : Gst) (L : IsDocumented G) (i : LinkUnlinkInfo) where
  open i use {main_element as m, main_prev_element as p, main_next_element as n}

  remove_world :
      Fits G p n
      → (w : G.World) → IsSpliced i (G.view w)
      → G.view (G.link p n (G.bin_remove i.pipeline m (G.set_state m false w))).1
        ≡ unspliced G.depth i (G.view w)
  remove_world F w h =
      let v : View = G.view w in
      let w₁ = G.set_state m false w in
      let v₁ : View = record v { playing = spread G.depth v.parent m false v.playing } in
      let v₂ : View = record v₁ { parent = update v.parent m 0; next = cut i v h } in
      let at₂ : G.view (G.bin_remove i.pipeline m w₁) ≡ v₂ =
        bin_remove_from G L w₁ v₁ (set_state_of G L w v refl m false) i.pipeline m h.inside in
      (link_to G L (G.bin_remove i.pipeline m w₁) v₂ at₂ p n F (cut_prev i v h)
        (cut-IsFree_next i v h)
        (ground (arith, h.apart, h.apart_next, h.prev_inside, h.next_inside))).1
      ∙ ap (λ f. record v₂ { next = f }) (fun_ext (cut_next i v h G.depth))

  -- If the end-of-stream event leaves a main element that stands in the pipeline between its
  -- neighbours, with nothing else linked to it or to the next, and the pads of the neighbours fit,
  -- so that the link, whose result is not looked at, succeeds: the probe stops the element with all
  -- that is in it, takes it out of the pipeline and links its neighbours to one another, touches no
  -- other link, bin or state, takes itself off its pad, frees its copy of the info and drops the
  -- event.
  pub remove_elem_probe_cb_unsplices :
      Fits G p n
      → (id : ℕ) (s : Pads G.World) → IsSpliced i (G.view s.world)
      → let (r, t) = remove_elem_probe_cb G true id i s in
        (r ≡ probe_drop)
        × (G.view t.world ≡ unspliced G.depth i (G.view s.world))
        × (t.probes ≡ remove_probe id s.probes)
        × (t.copies ≡ s.copies - 1)
  unfolding remove_elem_probe_cb
  remove_elem_probe_cb_unsplices F id s h = (refl, remove_world F s.world h, refl, refl)

module _ (i : LinkUnlinkInfo) (v : View) (h : IsSpliceable i v) where
  open i use {main_element as m, main_prev_element as p, main_next_element as n}

  -- What has been put in can be taken out.
  pub spliced-IsSpliced : (depth : ℕ) → IsSpliced i (spliced depth i v)
  spliced-IsSpliced depth = record {
    from_prev = ground (arith, prev-ne-main i v h);
    to_next = ground arith;
    some_main = h.some_main;
    some_next = h.some_next;
    apart = prev-ne-main i v h;
    only_main = λ x e. ground (arith, main-ne-next i v h, h.free x);
    only_next = λ x e. ground (arith, main-ne-next i v h, h.only x);
    inside = ground arith;
    prev_inside = ground (arith, prev-ne-main i v h, h.prev_inside);
    next_inside = ground (arith, main-ne-next i v h, h.next_inside);
    apart_next = main-ne-next i v h;
  }

  -- To take the element out again restores every link and every parent.
  unspliced-spliced :
      (depth : ℕ)
      → unspliced depth i (spliced depth i v)
        ≡ record v { playing = spread depth (update v.parent m i.pipeline) m false v.playing }
  unspliced-spliced depth =
      λ j. record { next = fun_ext back j; parent = fun_ext out j; playing = fun_ext stopped j }
    where
      back : (x : ℕ) → (unspliced depth i (spliced depth i v)).next x ≡ v.next x
      back x = ground (arith, h.linked, h.loose)

      out : (x : ℕ) → (unspliced depth i (spliced depth i v)).parent x ≡ v.parent x
      out x = ground (arith, h.alone)

      stopped :
          (x : ℕ)
          → (unspliced depth i (spliced depth i v)).playing x
            ≡ spread depth (update v.parent m i.pipeline) m false v.playing x
      stopped x = elim (Bool-cases (within depth (update v.parent m i.pipeline) m x)) [
        | inl h ↦ rw h refl
        | inr h ↦ rw h refl
      ]

module _ (G : Gst) (L : IsDocumented G) (i : LinkUnlinkInfo) (P : HasPads G i) where
  -- If the main element is loose, its neighbours are in the pipeline with their pads, linked to one
  -- another and to nothing else there, and the pads of the three fit, so that the links succeed: the
  -- add probe and, later, the removal probe with the same info give back the pipeline. Every link and
  -- every parent is as it was, the main element and all that is in it are stopped, and no other
  -- state has changed.
  pub remove_elem_probe_cb-add_elem_probe_cb :
      FitsBetween G i
      → Fits G i.main_prev_element i.main_next_element
      → (id id' : ℕ) (s : Pads G.World) → IsSpliceable i (G.view s.world)
      → let t = (add_elem_probe_cb G id i s).1 in
        let u = (remove_elem_probe_cb G true id' i t).1 in
        let v = G.view s.world in
        G.view u.world ≡ record v {
          playing =
              spread G.depth
                (update v.parent i.main_element i.pipeline)
                i.main_element
                false
                v.playing;
        }
  remove_elem_probe_cb-add_elem_probe_cb F F' id id' s h =
      let t = (add_elem_probe_cb G id i s).1 in
      let at_t : G.view t.world ≡ spliced G.depth i (G.view s.world) =
        (add_elem_probe_cb_splices G L i P F id s h).1 in
      (remove_elem_probe_cb_unsplices G L i F' id' t
        (rw at_t (spliced-IsSpliced i (G.view s.world) h G.depth))).1
      ∙ ap (unspliced G.depth i) at_t
      ∙ unspliced-spliced i (G.view s.world) h G.depth
