-- ===== src/Main/FirstEnable.antt =====
-- From the start of src/deepstream_fpfilter_app.c to the filter in the playing pipeline.
use mathlib.Core.Path.{subst}
use deepstream_fpfilter.Prelude.{
  ℕ, ◌≡◌, ◌≢◌, refl, sym, ap, ◌∙◌, true, false, [], ◌∷◌, arith, Run, done,
}
use deepstream_fpfilter.Pipeline.Gst.{Gst, IsDocumented}
use deepstream_fpfilter.Pipeline.Making.{IsMaking}
use deepstream_fpfilter.Pipeline.Many.{IsLoose}
use deepstream_fpfilter.Pipeline.Ready.{IsMade}
use deepstream_fpfilter.Pipeline.Link.{
  LinkUnlinkInfo, Probe, add_elem_probe, add_elem_probe_cb, remove_probe,
}
use deepstream_fpfilter.Pipeline.Splice.{
  spliced, IsSpliceable, HasPads, FitsBetween, add_elem_probe_cb_splices,
}
use deepstream_fpfilter.Control.App.{App, enable_fpfilter, with_bin}
use deepstream_fpfilter.Main.Start.{Elements}
use deepstream_fpfilter.Main.Started.{IsLaidOut}
use deepstream_fpfilter.Main.Switching.{disabled-IsSpliceable}

removed : (id : ℕ) (p : Probe) → remove_probe id ((id, p) ∷ []) ≡ []
unfolding remove_probe
removed id p = ground arith

module _ {G : Gst} (N : IsMaking G) where
  -- What can be spliced stays so while the bin is made.
  made-IsSpliceable :
      (i : LinkUnlinkInfo) (w w' : G.World)
      → N.Exists w i.main_prev_element
      → N.Exists w i.main_next_element
      → IsMade N w w' i.main_element
      → IsSpliceable i (G.view w)
      → IsSpliceable i (G.view w')
  made-IsSpliceable i w w' prev next m h = record {
    some_main = h.some_main;
    linked = m.same_next i.main_prev_element prev ∙ h.linked;
    some_next = h.some_next;
    loose = m.loose.open_end;
    free = m.loose.free;
    only = λ x g. h.only x (m.same_leads x i.main_next_element next g);
    alone = m.loose.alone;
    prev_inside = m.same_parent i.main_prev_element prev ∙ h.prev_inside;
    next_inside = m.same_parent i.main_next_element next ∙ h.next_inside;
  }

  new-IsLoose : (w w' : G.World) (e : ℕ) → IsMade N w w' e → IsLoose (G.view w) e
  new-IsLoose w w' e m =
      let (o, f, a) = N.loose w e m.new m.loose.some in
      record { some = m.loose.some; open_end = o; free = f; alone = a }

module _ {G : Gst} (L : IsDocumented G) (N : IsMaking G) (create : G.World → Run (ℕ × G.World))
    {Loop : Type 0} where
  -- What `enable_fpfilter` leaves, where no probe waits, the bin is made and there is a pad to wait on.
  with_bin_waits :
      (a : App G.World Loop) (bin : ℕ) (w : G.World)
      → a.pads.probes ≡ []
      → bin ≢ 0
      → let info = record (a.fp_filter_dynamic_link_info) { main_element = bin } in
        G.get_static_pad info.main_prev_prev_element "src" w ≢ 0
        → let b = with_bin G a (bin, w) in
          (b.is_fpfilter_enabled ≡ true)
          × (b.pads.probes ≡ (a.pads.next_id, add_elem_probe info) ∷ [])
          × (b.pads.world ≡ w)
  unfolding with_bin
  with_bin_waits a bin w none_waits some_bin found = ground arith

  -- If `main` has started the pipeline without the filter and the first prompt enables it, with a
  -- filter bin that can be made, with the static pads that the linking asks for there, and with the
  -- pads of the bin fitting those of its neighbours, so that the links succeed, `enable_fpfilter`
  -- returns with one probe waiting on the pads, and once that has fired the filter stands in the
  -- pipeline between its neighbours and plays with all that is in it, no other link, bin or state
  -- has changed since it was made, and no probe waits.
  pub enable_fpfilter-start :
      (w₀ : G.World) (e : Elements) (sink : ℕ) (a : App G.World Loop) (bin : ℕ) (w : G.World)
      → IsLaidOut N w₀ e sink a
      → a.is_fpfilter_enabled ≡ false
      → create a.pads.world ≡ done (bin, w)
      → IsMade N a.pads.world w bin
      → let info = record (a.fp_filter_dynamic_link_info) { main_element = bin } in
        HasPads G info
        → FitsBetween G info
        → G.get_static_pad info.main_prev_prev_element "src" w ≢ 0
        → (b : App G.World Loop) × (enable_fpfilter G create a ≡ done b)
          × (b.is_fpfilter_enabled ≡ true)
          × (b.pads.probes ≡ (a.pads.next_id, add_elem_probe info) ∷ [])
          × (let t = (add_elem_probe_cb G a.pads.next_id info b.pads).1 in
              (G.view t.world ≡ spliced G.depth info (G.view w)) × (t.probes ≡ []))
  unfolding enable_fpfilter
  enable_fpfilter-start w₀ e sink a bin w h off made m P F found =
      let info : LinkUnlinkInfo = record (a.fp_filter_dynamic_link_info) { main_element = bin } in
      let b = with_bin G a (bin, w) in
      let (on, waits, at_w) = with_bin_waits a bin w h.unprobed m.loose.some found in
      let before =
        disabled-IsSpliceable N w₀ e sink a h off bin (new-IsLoose N a.pads.world w bin m) in
      let each = rw off at h.ready.each in
      let prev : N.Exists a.pads.world info.main_prev_element =
        subst (N.Exists a.pads.world) (sym h.main_prev) (h.kept e.nvvidconv1 each.1.1.1.1.0.1) in
      let next : N.Exists a.pads.world info.main_next_element =
        subst (N.Exists a.pads.world) (sym h.main_next) (h.kept e.nvvidconv2 each.1.1.1.1.1.0.1) in
      let spliceable = made-IsSpliceable N info a.pads.world w prev next m before in
      let (_, view, probes, _) =
        add_elem_probe_cb_splices G L info P F a.pads.next_id b.pads
          (subst (λ v. IsSpliceable info (G.view v)) (sym at_w) spliceable) in
      (
        b,
        rw (enable_fpfilter, off, made) refl,
        on,
        waits,
        (
          rw at_w at view,
          probes
              ∙ ap (remove_probe a.pads.next_id) waits
              ∙ removed a.pads.next_id (add_elem_probe info),
        ),
      )
