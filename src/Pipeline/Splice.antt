-- ===== src/Pipeline/Splice.antt =====
-- What the probes do to the links of the pipeline.
use mathlib.Core.Path.{fun_ext}
use deepstream_fpfilter.Prelude.{
  ℕ, ◌-◌, ◌≡◌, ◌≢◌, refl, sym, ap, ◌∙◌, true, false, ◌||◌, ◌==◌, arith,
}
use deepstream_fpfilter.Pipeline.Gst.{Gst, View, IsDocumented, IsFree, Fits, spread, update}
use deepstream_fpfilter.Pipeline.Link.{
  LinkUnlinkInfo, Pads, probe_drop, remove_probe, link_three, add_elem_probe_cb,
}
use deepstream_fpfilter.Pipeline.Views.{
  bin_add_to, link_to, pad_unlink_from, pad_unlink_refused, set_state_of,
}

-- The view once the main element stands between its neighbours.
abbrev pub spliced : ℕ → LinkUnlinkInfo → View → View
spliced depth i v = record {
  next =
      update (update v.next i.main_prev_element i.main_element) i.main_element i.main_next_element;
  parent = update v.parent i.main_element i.pipeline;
  playing = spread depth (update v.parent i.main_element i.pipeline) i.main_element true v.playing;
}

-- The main element is loose, and its neighbours are in the pipeline, linked to one another and to
-- nothing else there.
pub record IsSpliceable (i : LinkUnlinkInfo) (v : View) : Type 0 where
  pub some_main : i.main_element ≢ 0
  pub linked : v.next i.main_prev_element ≡ i.main_next_element
  pub some_next : i.main_next_element ≢ 0
  pub loose : v.next i.main_element ≡ 0
  pub free : IsFree v.next i.main_element
  pub only : (x : ℕ) → v.next x ≡ i.main_next_element → x ≡ i.main_prev_element
  pub alone : v.parent i.main_element ≡ 0
  pub prev_inside : v.parent i.main_prev_element ≡ i.pipeline
  pub next_inside : v.parent i.main_next_element ≡ i.pipeline

module _ (i : LinkUnlinkInfo) (v : View) (h : IsSpliceable i v) where
  open i use {main_element as m, main_prev_element as p, main_next_element as n}

  -- The links once the neighbours are taken apart.
  abbrev opened : ℕ → ℕ
  opened = update v.next p 0

  pub main-ne-next : m ≢ n
  main-ne-next e = h.free p (h.linked ∙ sym e)

  pub prev-ne-main : p ≢ m
  prev-ne-main e = h.some_next (sym h.linked ∙ ap v.next e ∙ h.loose)

  opened_prev : opened p ≡ 0
  opened_prev = ground arith

  opened_main : opened m ≡ 0
  opened_main = ground (arith, h.loose)

  -- 0 is no element.
  opened-IsFree_main : m ≢ 0 → IsFree opened m
  opened-IsFree_main g x e = ground (arith, h.free x)

  opened-IsFree_next : IsFree opened n
  opened-IsFree_next x e = ground (arith, h.only x, h.some_next)

  spliced_next : (depth x : ℕ) → update (update opened p m) m n x ≡ (spliced depth i v).next x
  spliced_next depth x = ground arith

-- The neighbours have their static pads.
pub record HasPads (G : Gst) (i : LinkUnlinkInfo) : Type 0 where
  pub src : (w : G.World) → G.get_static_pad i.main_prev_element "src" w ≢ 0
  pub sink : (w : G.World) → G.get_static_pad i.main_next_element "sink" w ≢ 0

-- The pads of the main element fit those of its neighbours.
pub record FitsBetween (G : Gst) (i : LinkUnlinkInfo) : Type 0 where
  pub before : Fits G i.main_prev_element i.main_element
  pub behind : Fits G i.main_element i.main_next_element

module _ (G : Gst) (L : IsDocumented G) (i : LinkUnlinkInfo) (P : HasPads G i) where
  open i use {main_element as m, main_prev_element as p, main_next_element as n}

  pads_there :
      (w : G.World) → (G.get_static_pad p "src" w == 0 || G.get_static_pad n "sink" w == 0) ≡ false
  pads_there w = ground (arith, P.src w, P.sink w)

  -- The links of a view in which the source pad of `p` is open.
  link_three_ok :
      FitsBetween G i
      → (w : G.World) (v : View) → G.view w ≡ v
      → v.next p ≡ 0
      → v.next m ≡ 0
      → p ≢ m
      → IsFree v.next m
      → IsFree v.next n
      → m ≢ n
      → v.parent p ≡ v.parent m
      → v.parent m ≡ v.parent n
      → G.view (link_three G p m n w).1 ≡ record v { next = update (update v.next p m) m n }
  unfolding link_three
  link_three_ok F w v at_v open' loose ne free free' ne' same same' =
      let (r, at_v₁) = link_to G L w v at_v p m F.before open' free same in
      rw (r, link_three)
        (link_to G L (G.link p m w).1 (record v { next = update v.next p m }) at_v₁ m n F.behind
          (ground arith) (λ x e. ground (arith, free' x)) same').1

  -- The world as `add_elem_probe_cb` leaves it, one call after the other.
  add_world :
      FitsBetween G i
      → (w : G.World) → IsSpliceable i (G.view w)
      → let w₁ = G.bin_add i.pipeline m w in
        let r = G.pad_unlink (G.get_static_pad p "src" w₁) (G.get_static_pad n "sink" w₁) w₁ in
        (r.0 ≡ true)
        × (G.view (G.set_state m true (link_three G p m n r.1).1) ≡ spliced G.depth i (G.view w))
  add_world F w h =
      let v : View = G.view w in
      let w₁ = G.bin_add i.pipeline m w in
      let r = G.pad_unlink (G.get_static_pad p "src" w₁) (G.get_static_pad n "sink" w₁) w₁ in
      let v₁ : View = record v { parent = update v.parent m i.pipeline } in
      let (ok, at₂) =
        pad_unlink_from G L w₁ v₁ (bin_add_to G L w v refl i.pipeline m h.alone) p n h.linked
          h.some_next (P.src w₁) (P.sink w₁) in
      let v₂ : View = record v₁ { next = update v.next p 0 } in
      let at₃ : G.view (link_three G p m n r.1).1
          ≡ record v₂ { next = update (update (opened i v h) p m) m n } =
        link_three_ok F r.1 v₂ at₂ (opened_prev i v h) (opened_main i v h) (prev-ne-main i v h)
          (opened-IsFree_main i v h h.some_main) (opened-IsFree_next i v h) (main-ne-next i v h)
          (ground (arith, prev-ne-main i v h, h.prev_inside))
          (ground (arith, main-ne-next i v h, h.next_inside)) in
      (
        ok,
        set_state_of G L (link_three G p m n r.1).1 _ at₃ m true
            ∙ ap (λ f. record v₁ { next = f; playing = spread G.depth v₁.parent m true v.playing })
                (fun_ext (spliced_next i v h G.depth)),
      )

  -- If the main element is loose, its neighbours are in the pipeline with their pads, linked to one
  -- another and to nothing else there, and the pads of the three fit, so that the links, whose
  -- results are not looked at, succeed: the probe puts the element between its neighbours, into
  -- the pipeline and, with all that is in it, into the playing state, touches no other link, bin or
  -- state, takes itself off its pad, frees its copy of the info and drops the buffer.
  pub add_elem_probe_cb_splices :
      FitsBetween G i
      → (id : ℕ) (s : Pads G.World) → IsSpliceable i (G.view s.world)
      → let (r, t) = add_elem_probe_cb G id i s in
        (r ≡ probe_drop)
        × (G.view t.world ≡ spliced G.depth i (G.view s.world))
        × (t.probes ≡ remove_probe id s.probes)
        × (t.copies ≡ s.copies - 1)
  unfolding add_elem_probe_cb
  add_elem_probe_cb_splices F id s h =
      let w₁ = G.bin_add i.pipeline m s.world in
      let (ok, same) = add_world F s.world h in rw (pads_there w₁, ok) (refl, same, refl, refl)

  pub add_elem_probe_cb_refused :
      (id : ℕ) (s : Pads G.World)
      → (G.view s.world).parent m ≡ 0
      → (G.view s.world).next p ≢ n
      → let (r, t) = add_elem_probe_cb G id i s in
        (r ≡ probe_drop)
        × (G.view t.world
            ≡ record (G.view s.world) { parent = update (G.view s.world).parent m i.pipeline })
        × (t.probes ≡ remove_probe id s.probes)
        × (t.copies ≡ s.copies)
  unfolding add_elem_probe_cb
  add_elem_probe_cb_refused id s h g =
      let v : View = G.view s.world in
      let w₁ = G.bin_add i.pipeline m s.world in
      let (no_link, same) =
        pad_unlink_refused G L w₁ (record v { parent = update v.parent m i.pipeline })
          (bin_add_to G L s.world v refl i.pipeline m h) p n g in
      rw (pads_there w₁, no_link) (refl, same, refl, refl)
