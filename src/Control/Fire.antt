-- ===== src/Control/Fire.antt =====
-- The probes that a switch of src/deepstream_fpfilter_app.c leaves on the pads fire one after the
-- other.
use mathlib.Core.Path.{subst}
use deepstream_fpfilter.Control.Race.{pad_probe_cb-view}
use deepstream_fpfilter.Prelude.{
  ℕ, ◌≡◌, ◌≢◌, refl, sym, ap, ◌∙◌, true, false, List, [], ◌∷◌, ◌==◌, ◌||◌, if_cases, arith,
}
use deepstream_fpfilter.Pipeline.Gst.{Gst, IsDocumented, Fits}
use deepstream_fpfilter.Pipeline.Making.{IsMaking}
use deepstream_fpfilter.Pipeline.Link.{
  LinkUnlinkInfo, Pads, Probe, GstPadProbeReturn, add_elem_probe, pad_probe, remove_elem_probe,
  remove_probe, add_probe, link_three, add_elem_probe_cb, pad_probe_cb, remove_elem_probe_cb,
}
use deepstream_fpfilter.Pipeline.Splice.{
  spliced, IsSpliceable, HasPads, FitsBetween, add_elem_probe_cb_splices,
}
use deepstream_fpfilter.Pipeline.Unsplice.{IsSpliced, unspliced, remove_elem_probe_cb_unsplices}

module _ (G : Gst) where
  -- A buffer reaches the pad of a block, and the end of the stream the pad of a removal.
  unfoldable fire_first : List (ℕ × Probe) → Pads G.World → Pads G.World
  fire_first [] s = s
  fire_first ((id, add_elem_probe i) ∷ ps) s = (add_elem_probe_cb G id i s).1
  fire_first ((id, pad_probe i) ∷ ps) s = (pad_probe_cb G id i s).1
  fire_first ((id, remove_elem_probe i) ∷ ps) s = (remove_elem_probe_cb G true id i s).1

  -- The probes of one switch: a block, and for a removal the end of the stream behind it.
  unfoldable pub settle : Pads G.World → Pads G.World
  unfolding fire_first
  settle s = let s₁ = fire_first s.probes s in fire_first s₁.probes s₁

module _ (G : Gst) where
  -- The two firings, by the probes that wait at each.
  settle_by :
      (s t : Pads G.World) (ps qs : List (ℕ × Probe))
      → s.probes ≡ ps
      → fire_first G ps s ≡ t
      → t.probes ≡ qs
      → settle G s ≡ fire_first G qs t
  unfolding settle
  settle_by s t ps qs waits fires then_waits =
      ap (λ xs. let u = fire_first G xs s in fire_first G u.probes u) waits
      ∙ ap (λ u. fire_first G u.probes u) fires
      ∙ ap (λ xs. fire_first G xs t) then_waits

  pub settle_nothing : (s : Pads G.World) → s.probes ≡ [] → settle G s ≡ s
  unfolding fire_first
  settle_nothing s none_waits = settle_by s s [] [] none_waits refl none_waits

remove_probe_same : (id : ℕ) (p : Probe) → remove_probe id ((id, p) ∷ []) ≡ []
unfolding remove_probe
remove_probe_same id p = ground arith

-- To link an element in frees none.
module _ {G : Gst} (N : IsMaking G) (x : ℕ) where
  link_three_keeps : (a b c : ℕ) (w : G.World) → N.Exists w x → N.Exists (link_three G a b c w).1 x
  unfolding link_three
  link_three_keeps a b c w h =
      let h₁ = N.link_keeps a b w x h in
      let h₂ = N.link_keeps b c (G.link a b w).1 x h₁ in ground arith

  add_elem_probe_cb_keeps :
      (id : ℕ) (i : LinkUnlinkInfo) (s : Pads G.World)
      → N.Exists s.world x
      → N.Exists (add_elem_probe_cb G id i s).1.world x
  unfolding add_elem_probe_cb
  add_elem_probe_cb_keeps id i s h =
      let w₁ = G.bin_add i.pipeline i.main_element s.world in
      let src_pad = G.get_static_pad i.main_prev_element "src" w₁ in
      let sink_pad = G.get_static_pad i.main_next_element "sink" w₁ in
      let w₂ = (G.pad_unlink src_pad sink_pad w₁).1 in
      let w₃ = (link_three G i.main_prev_element i.main_element i.main_next_element w₂).1 in
      let h₁ = N.bin_add_keeps i.pipeline i.main_element s.world x h in
      let h₂ = N.pad_unlink_keeps src_pad sink_pad w₁ x h₁ in
      let h₃ = link_three_keeps i.main_prev_element i.main_element i.main_next_element w₂ h₂ in
      let h₄ = N.set_state_keeps i.main_element true w₃ x h₃ in
      if_cases (λ (r : GstPadProbeReturn × Pads G.World). N.Exists r.1.world x)
        (src_pad == 0 || sink_pad == 0) _ _ (λ _. h₁)
        (λ _.
          if_cases (λ (r : GstPadProbeReturn × Pads G.World). N.Exists r.1.world x)
            (G.pad_unlink src_pad sink_pad w₁).0 _ _ (λ _. h₄) (λ _. h₂))

module _ {G : Gst} (L : IsDocumented G) (N : IsMaking G) (i : LinkUnlinkInfo)
    (P : HasPads G i) where
  -- Nothing waits, the element is linked in, and no element is freed.
  pub settle_splices :
      FitsBetween G i
      → (id : ℕ) (s : Pads G.World) → s.probes ≡ (id, add_elem_probe i) ∷ []
      → IsSpliceable i (G.view s.world)
      → let t = settle G s in
        (t.probes ≡ [])
        × (G.view t.world ≡ spliced G.depth i (G.view s.world))
        × ((x : ℕ) → N.Exists s.world x → N.Exists t.world x)
  unfolding fire_first
  settle_splices F id s waits h =
      let t = (add_elem_probe_cb G id i s).1 in
      let (_, view, probes, _) = add_elem_probe_cb_splices G L i P F id s h in
      let none_waits : t.probes ≡ [] =
        probes ∙ ap (remove_probe id) waits ∙ remove_probe_same id (add_elem_probe i) in
      subst
        (λ u.
          (u.probes ≡ [])
          × (G.view u.world ≡ spliced G.depth i (G.view s.world))
          × ((x : ℕ) → N.Exists s.world x → N.Exists u.world x))
        (sym (settle_by G s t ((id, add_elem_probe i) ∷ []) [] waits refl none_waits))
        (none_waits, view, λ x there. add_elem_probe_cb_keeps N x id i s there)

  remove_elem_probe_cb_keeps :
      (id : ℕ) (s : Pads G.World) (x : ℕ)
      → (G.view s.world).parent x ≡ i.pipeline
      → x ≢ i.main_element
      → N.Exists s.world x
      → N.Exists (remove_elem_probe_cb G true id i s).1.world x
  unfolding remove_elem_probe_cb
  remove_elem_probe_cb_keeps id s x inside ne h =
      let w₁ = G.set_state i.main_element false s.world in
      N.link_keeps i.main_prev_element i.main_next_element
        (G.bin_remove i.pipeline i.main_element w₁) x
        (N.bin_remove_keeps i.pipeline i.main_element w₁ x
          (ap (λ v. v.parent x) (L.set_state-view i.main_element false s.world) ∙ inside) ne
          (N.set_state_keeps i.main_element false s.world x h))

  -- The block takes itself off, and the removal waits on the element.
  then_removes :
      (id : ℕ) (s : Pads G.World)
      → s.probes ≡ (id, pad_probe i) ∷ []
      → G.get_static_pad i.main_element "src" s.world ≢ 0
      → (pad_probe_cb G id i s).1.probes ≡ (s.next_id, remove_elem_probe i) ∷ []
  unfolding pad_probe_cb remove_probe add_probe
  then_removes id s waits found = ground arith

  -- Nothing waits, the element is taken out, and what else is in the pipeline is kept.
  pub settle_unsplices :
      Fits G i.main_prev_element i.main_next_element
      → (id : ℕ) (s : Pads G.World) → s.probes ≡ (id, pad_probe i) ∷ []
      → IsSpliced i (G.view s.world)
      → ((w : G.World) → G.get_static_pad i.main_element "src" w ≢ 0)
      → let t = settle G s in
        (t.probes ≡ [])
        × (G.view t.world ≡ unspliced G.depth i (G.view s.world))
        × ((x : ℕ)
            → (G.view s.world).parent x ≡ i.pipeline
            → x ≢ i.main_element
            → N.Exists s.world x
            → N.Exists t.world x)
  unfolding fire_first pad_probe_cb
  settle_unsplices F id s waits h found =
      let s₁ = (pad_probe_cb G id i s).1 in
      let eos : G.view s₁.world ≡ G.view s.world = pad_probe_cb-view G L i P id s in
      let then_waits : s₁.probes ≡ (s.next_id, remove_elem_probe i) ∷ [] =
        then_removes id s waits (found s.world) in
      let (_, view, probes, _) =
        remove_elem_probe_cb_unsplices G L i F s.next_id s₁ (subst (IsSpliced i) (sym eos) h) in
      let none_waits : (remove_elem_probe_cb G true s.next_id i s₁).1.probes ≡ [] =
        probes
        ∙ ap (remove_probe s.next_id) then_waits
        ∙ remove_probe_same s.next_id (remove_elem_probe i) in
      subst
        (λ u.
          (u.probes ≡ [])
          × (G.view u.world ≡ unspliced G.depth i (G.view s.world))
          × ((x : ℕ)
              → (G.view s.world).parent x ≡ i.pipeline
              → x ≢ i.main_element
              → N.Exists s.world x
              → N.Exists u.world x))
        (sym (
          settle_by G s s₁ ((id, pad_probe i) ∷ []) ((s.next_id, remove_elem_probe i) ∷ []) waits
            refl then_waits))
        (
          none_waits,
          view ∙ ap (unspliced G.depth i) eos,
          λ x inside ne there.
              remove_elem_probe_cb_keeps s.next_id s₁ x (ap (λ v. v.parent x) eos ∙ inside) ne
                (N.send_eos_keeps (G.get_static_pad i.main_element "sink" s.world) s.world x there),
        )
