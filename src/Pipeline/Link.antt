-- ===== src/Pipeline/Link.antt =====
-- The functions of src/ds_dynamic_link_unlink_element.c, over any GStreamer.
use deepstream_fpfilter.Prelude.{
  ℕ, suc, ◌+◌, ◌-◌, Bool, true, false, ◌||◌, List, [], ◌∷◌, ◌++◌, ◌==◌, if◌then◌else◌,
}
use deepstream_fpfilter.Pipeline.Gst.{Gst}

pub record LinkUnlinkInfo : Type 0 where
  pub main_element : ℕ
  pub main_prev_element : ℕ
  pub main_prev_prev_element : ℕ
  pub main_next_element : ℕ
  pub pipeline : ℕ
  pub loop : ℕ

-- The callbacks that wait on a pad, each with its own copy of the info.
pub data Probe : Type 0 where
  add_elem_probe : LinkUnlinkInfo → Probe
  pad_probe : LinkUnlinkInfo → Probe
  remove_elem_probe : LinkUnlinkInfo → Probe

-- `GstPadProbeReturn`; `return FALSE` is `GST_PAD_PROBE_DROP`, whose value is 0.
pub data GstPadProbeReturn : Type 0 where
  probe_drop probe_ok probe_pass : GstPadProbeReturn

-- The pipeline with its probes, by the ids that `gst_pad_add_probe` gives, and the number of copies
-- of an info that are allocated and not freed.
pub record Pads (World : Type 0) : Type 0 where
  pub world : World
  pub probes : List (ℕ × Probe)
  pub next_id : ℕ
  pub copies : ℕ

-- `gst_pad_remove_probe`
unfoldable pub remove_probe : ℕ → List (ℕ × Probe) → List (ℕ × Probe)
remove_probe id [] = []
remove_probe id ((i, p) ∷ ps) = if i == id then ps else (i, p) ∷ remove_probe id ps

module _ (G : Gst) where
  -- `gst_pad_add_probe` on a pad, which does nothing for NULL
  unfoldable pub add_probe : ℕ → Probe → Pads G.World → Pads G.World
  add_probe pad p s =
      if pad == 0
      then s
      else record s { probes = s.probes ++ ((s.next_id, p) ∷ []); next_id = suc s.next_id }

  -- `gst_element_link_many` of two and of three elements: it stops at the first link that fails
  abbrev link_two : ℕ → ℕ → G.World → Bool × G.World
  link_two a b w = G.link a b w

  unfoldable pub link_three : ℕ → ℕ → ℕ → G.World → Bool × G.World
  link_three a b c w =
      let (r, w') = G.link a b w in elim r [ false ↦ (false, w') | true ↦ G.link b c w' ]

  unfoldable pub add_elem_probe_cb :
      ℕ → LinkUnlinkInfo → Pads G.World → GstPadProbeReturn × Pads G.World
  unfolding remove_probe link_three
  add_elem_probe_cb id info s =
      let ps = remove_probe id s.probes in
      let w₁ = G.bin_add info.pipeline info.main_element s.world in
      let src_pad = G.get_static_pad info.main_prev_element "src" w₁ in
      let sink_pad = G.get_static_pad info.main_next_element "sink" w₁ in
      let (unlink_status, w₂) = G.pad_unlink src_pad sink_pad w₁ in
      let (_, w₃) = link_three info.main_prev_element info.main_element info.main_next_element w₂ in
      let w₄ = G.set_state info.main_element true w₃ in
      if src_pad == 0 || sink_pad == 0
      then (probe_drop, record s { probes = ps; world = w₁ })
      else if unlink_status
      then (probe_drop, record s { probes = ps; world = w₄; copies = s.copies - 1 })
      else (probe_drop, record s { probes = ps; world = w₂ })

  -- `is_eos` says whether the event that passes is `GST_EVENT_EOS`
  unfoldable pub remove_elem_probe_cb :
      Bool → ℕ → LinkUnlinkInfo → Pads G.World → GstPadProbeReturn × Pads G.World
  unfolding remove_probe
  remove_elem_probe_cb false id info s = (probe_pass, s)
  remove_elem_probe_cb true id info s =
      let w₁ = G.set_state info.main_element false s.world in
      let w₂ = G.bin_remove info.pipeline info.main_element w₁ in
      let (_, w₃) = link_two info.main_prev_element info.main_next_element w₂ in
      (
        probe_drop,
        record s { probes = remove_probe id s.probes; world = w₃; copies = s.copies - 1 },
      )

  unfoldable pub pad_probe_cb : ℕ → LinkUnlinkInfo → Pads G.World → GstPadProbeReturn × Pads G.World
  unfolding remove_probe add_probe
  pad_probe_cb id info s =
      let s₁ : Pads G.World = record s { probes = remove_probe id s.probes } in
      let srcpad = G.get_static_pad info.main_element "src" s.world in
      let s₂ = add_probe srcpad (remove_elem_probe info) s₁ in
      let sinkpad = G.get_static_pad info.main_element "sink" s.world in
      (probe_ok, record s₂ { world = G.send_eos sinkpad s.world })

  -- Each of the two allocates a copy of the info, also where there is no pad to block.
  unfoldable pub add_element_to_pipeline : LinkUnlinkInfo → Pads G.World → Bool × Pads G.World
  unfolding add_probe
  add_element_to_pipeline info s =
      let s₁ : Pads G.World = record s { copies = s.copies + 1 } in
      let block_src_pad = G.get_static_pad info.main_prev_prev_element "src" s.world in
      if block_src_pad == 0
      then (false, s₁)
      else (true, add_probe block_src_pad (add_elem_probe info) s₁)

  unfoldable pub remove_element_from_pipeline : LinkUnlinkInfo → Pads G.World → Bool × Pads G.World
  unfolding add_probe
  remove_element_from_pipeline info s =
      let s₁ : Pads G.World = record s { copies = s.copies + 1 } in
      let block_src_pad = G.get_static_pad info.main_prev_prev_element "src" s.world in
      if block_src_pad == 0
      then (false, s₁)
      else (true, add_probe block_src_pad (pad_probe info) s₁)
