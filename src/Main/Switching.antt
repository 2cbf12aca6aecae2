-- ===== src/Main/Switching.antt =====
-- What `main` of src/deepstream_fpfilter_app.c sets up is what the dynamic linking asks for.
use mathlib.Core.Path.{subst}
use deepstream_fpfilter.Prelude.{
  ℕ, Run, done, ◌≢◌, refl, ◌≡◌, sym, Bool, true, false, List, [], ◌∷◌, arith,
}
use deepstream_fpfilter.Pipeline.Gst.{Gst, IsDocumented, View, spread, update}
use deepstream_fpfilter.Pipeline.Making.{IsMaking}
use deepstream_fpfilter.Pipeline.Link.{LinkUnlinkInfo}
use deepstream_fpfilter.Pipeline.Many.{
  IsLoose, AreLoose, chain, chain_head, chain_only_head, chain-IsFree, inside_member,
}
use deepstream_fpfilter.Pipeline.Splice.{IsSpliceable}
use deepstream_fpfilter.Pipeline.Unsplice.{IsSpliced}
use deepstream_fpfilter.Control.App.{App}
use deepstream_fpfilter.Pipeline.Ready.{IsMade}
use deepstream_fpfilter.Control.Settled.{
  IsJoined, IsSettled, CanSwitch, FitsIn, IsFitted, joined-IsSpliceable, switches, last_of,
}
use deepstream_fpfilter.Control.Switches.{switches-Gives}
use deepstream_fpfilter.Main.Start.{Elements}
use deepstream_fpfilter.Main.Elements.{all_elements}
use deepstream_fpfilter.Main.Layout.{placed, linked_up}
use deepstream_fpfilter.Main.Started.{IsLaidOut, ready-AreLoose}

-- The info that names the elements around the filter.
abbrev around : Elements → ℕ → ℕ → LinkUnlinkInfo
around e main_element loop = record {
  main_element = main_element;
  main_prev_element = e.nvvidconv1;
  main_prev_prev_element = e.primary_detector;
  main_next_element = e.nvvidconv2;
  pipeline = e.pipeline;
  loop = loop;
}

-- The view of a pipeline that is laid out and plays.
abbrev view_of : ℕ → Elements → ℕ → Bool → ℕ → View → View
view_of depth e sink on bin v = record {
  next = linked_up e sink on bin v.next;
  parent = placed e sink on bin v.parent;
  playing = spread depth (placed e sink on bin v.parent) e.pipeline true v.playing;
}

-- The elements around the filter are in the pipeline.
prev_placed :
    (e : Elements) (sink : ℕ) (on : Bool) (bin : ℕ) (v : View)
    → AreLoose v (all_elements e sink on bin)
    → placed e sink on bin v.parent e.nvvidconv1 ≡ e.pipeline
prev_placed e sink true bin v l = ground arith
prev_placed e sink false bin v l =
    let (_, (_, (_, (_, (d, _))))) = l.distinct in
    inside_member e.pipeline (e.source ∷ e.streammux ∷ e.primary_detector ∷ e.nvosd ∷ [])
      (e.nvvidconv2 ∷ e.nvvidconv3 ∷ sink ∷ []) e.nvvidconv1 v.parent (d.0, (d.1.1.0, d.1.1.1))

next_placed :
    (e : Elements) (sink : ℕ) (on : Bool) (bin : ℕ) (v : View)
    → AreLoose v (all_elements e sink on bin)
    → placed e sink on bin v.parent e.nvvidconv2 ≡ e.pipeline
next_placed e sink true bin v l = ground arith
next_placed e sink false bin v l = ground arith

-- The links up to the element before the filter.
abbrev up_to_filter : Elements → (ℕ → ℕ) → ℕ → ℕ
up_to_filter e = chain e.source (e.streammux ∷ e.primary_detector ∷ e.nvvidconv1 ∷ [])

with_filter-IsSpliced :
    (depth : ℕ) (e : Elements) (sink bin loop : ℕ) (v : View)
    → AreLoose v (all_elements e sink true bin)
    → IsSpliced (around e bin loop) (view_of depth e sink true bin v)
with_filter-IsSpliced depth e sink bin loop v l =
    let (_, (_, (_, (_, (_, (bi, (c2, _))))))) = l.each in
    let (_, (_, (apart_mu, (apart_de, d)))) = l.distinct in
    let before = up_to_filter e v.next in
    let last = e.nvosd ∷ e.nvvidconv3 ∷ sink ∷ [] in
    let row = e.streammux ∷ e.primary_detector ∷ e.nvvidconv1 ∷ [] in
    let bin_free =
      chain-IsFree e.source row v.next bin bi.free
        (ground arith, (ground arith, (ground arith, tt))) in
    let next_free =
      chain-IsFree e.source (e.streammux ∷ e.primary_detector ∷ e.nvvidconv1 ∷ bin ∷ []) v.next
        e.nvvidconv2 c2.free (ground arith, (ground arith, (ground arith, (ground arith, tt)))) in
    record {
      from_prev = chain_head e.nvvidconv1 bin (e.nvvidconv2 ∷ last) before d;
      to_next = chain_head bin e.nvvidconv2 last (update before e.nvvidconv1 bin) d.1;
      some_main = bi.some;
      some_next = c2.some;
      apart = d.0.0;
      only_main =
          λ x g. chain_only_head e.nvvidconv1 bin (e.nvvidconv2 ∷ last) before x d bin_free g;
      only_next = λ x g.
          chain_only_head bin e.nvvidconv2 last (update before e.nvvidconv1 bin) x d.1 next_free g;
      inside = ground arith;
      prev_inside = prev_placed e sink true bin v l;
      next_inside = next_placed e sink true bin v l;
      apart_next = d.1.0.0;
    }

without_filter-IsJoined :
    (depth : ℕ) (e : Elements) (sink null loop : ℕ) (v : View)
    → AreLoose v (all_elements e sink false null)
    → IsJoined (around e null loop) (view_of depth e sink false null v)
without_filter-IsJoined depth e sink null loop v l =
    let (_, (_, (_, (_, (_, (c2, _)))))) = l.each in
    let (_, (_, (apart_mu, (apart_de, d)))) = l.distinct in
    let before = up_to_filter e v.next in
    let last = e.nvosd ∷ e.nvvidconv3 ∷ sink ∷ [] in
    let next_free =
      chain-IsFree e.source (e.streammux ∷ e.primary_detector ∷ e.nvvidconv1 ∷ []) v.next
        e.nvvidconv2 c2.free (ground arith, (ground arith, (ground arith, tt))) in
    record {
      linked = chain_head e.nvvidconv1 e.nvvidconv2 last before d;
      some_next = c2.some;
      only = λ x g. chain_only_head e.nvvidconv1 e.nvvidconv2 last before x d next_free g;
      prev_inside = prev_placed e sink false null v l;
      next_inside = next_placed e sink false null v l;
    }

module _ {G : Gst} (N : IsMaking G) {Loop : Type 0} (w₀ : G.World) (e : Elements) (sink : ℕ) where
  -- If `main` has enabled the filter, the pipeline that it has laid out is one from which the
  -- filter can be taken while it plays: the info names the filter, which stands between its
  -- neighbours alone.
  enabled-IsSpliced :
      (a : App G.World Loop)
      → IsLaidOut N w₀ e sink a
      → a.is_fpfilter_enabled ≡ true
      → IsSpliced a.fp_filter_dynamic_link_info (G.view a.pads.world)
  enabled-IsSpliced a h on =
      let info = a.fp_filter_dynamic_link_info in
      let loose : AreLoose (G.view h.before) (all_elements e sink true a.fpfilter_bin) =
        rw on at (ready-AreLoose N w₀ _ h.before h.ready) in
      let at : G.view a.pads.world ≡ view_of G.depth e sink true a.fpfilter_bin (G.view h.before) =
        rw on at h.layout in
      let same : info ≡ around e a.fpfilter_bin info.loop = cc in
      subst (λ i. IsSpliced i (G.view a.pads.world)) (sym same)
        (subst (IsSpliced (around e a.fpfilter_bin info.loop)) (sym at)
          (with_filter-IsSpliced G.depth e sink a.fpfilter_bin info.loop (G.view h.before) loose))

  -- If it has not, the neighbours are linked to one another, and nothing else to the second.
  disabled-IsJoined :
      (a : App G.World Loop)
      → IsLaidOut N w₀ e sink a
      → a.is_fpfilter_enabled ≡ false
      → IsJoined a.fp_filter_dynamic_link_info (G.view a.pads.world)
  disabled-IsJoined a h off =
      let info = a.fp_filter_dynamic_link_info in
      let null = a.fpfilter_bin in
      let all : AreLoose (G.view h.before) (all_elements e sink false null) =
        rw off at (ready-AreLoose N w₀ _ h.before h.ready) in
      let at : G.view a.pads.world ≡ view_of G.depth e sink false null (G.view h.before) =
        rw off at h.layout in
      let same : info ≡ around e null info.loop = cc in
      subst (λ i. IsJoined i (G.view a.pads.world)) (sym same)
        (subst (IsJoined (around e null info.loop)) (sym at)
          (without_filter-IsJoined G.depth e sink null info.loop (G.view h.before) all))

  -- So any loose bin can be put into the pipeline while it plays.
  pub disabled-IsSpliceable :
      (a : App G.World Loop)
      → IsLaidOut N w₀ e sink a
      → a.is_fpfilter_enabled ≡ false
      → (bin : ℕ) → IsLoose (G.view a.pads.world) bin
      → IsSpliceable
          (record (a.fp_filter_dynamic_link_info) { main_element = bin })
          (G.view a.pads.world)
  disabled-IsSpliceable a h off bin loose =
      joined-IsSpliceable a.fp_filter_dynamic_link_info (G.view a.pads.world) bin
        (disabled-IsJoined a h off) loose

  there :
      (a : App G.World Loop) (on : Bool)
      → a.is_fpfilter_enabled ≡ on
      → IsLaidOut N w₀ e sink a
      → N.Exists a.pads.world a.fp_filter_dynamic_link_info.main_prev_element
        × N.Exists a.pads.world a.fp_filter_dynamic_link_info.main_next_element
  there a true on h =
      let each = rw on at h.ready.each in
      (
        subst (N.Exists a.pads.world) (sym h.main_prev) (h.kept e.nvvidconv1 each.1.1.1.1.0.1),
        subst (N.Exists a.pads.world) (sym h.main_next) (h.kept e.nvvidconv2 each.1.1.1.1.1.1.0.1),
      )
  there a false off h =
      let each = rw off at h.ready.each in
      (
        subst (N.Exists a.pads.world) (sym h.main_prev) (h.kept e.nvvidconv1 each.1.1.1.1.0.1),
        subst (N.Exists a.pads.world) (sym h.main_next) (h.kept e.nvvidconv2 each.1.1.1.1.1.0.1),
      )

  -- The filter is there, and so is the pipeline.
  pub filter_there :
      (a : App G.World Loop)
      → a.is_fpfilter_enabled ≡ true
      → IsLaidOut N w₀ e sink a
      → N.Exists a.pads.world a.fp_filter_dynamic_link_info.main_element
        × (a.fp_filter_dynamic_link_info.pipeline ≢ 0)
  filter_there a on h =
      let each = rw on at h.ready.each in
      (
        subst (N.Exists a.pads.world) (sym h.consistent.named)
            (h.kept a.fpfilter_bin each.1.1.1.1.1.0.1),
        subst (λ x. x ≢ 0) (sym h.info_pipeline) each.0.2.some,
      )

  -- What `main` has laid out is settled.
  pub laid_out-IsSettled : (a : App G.World Loop) → IsLaidOut N w₀ e sink a → IsSettled N a
  laid_out-IsSettled a h =
      let (prev, next) = there a a.is_fpfilter_enabled refl h in
      record {
        consistent = h.consistent;
        unprobed = h.unprobed;
        prev_there = prev;
        next_there = next;
        with_filter = enabled-IsSpliced a h;
        without_filter = disabled-IsJoined a h;
      }

-- From what `main` has laid out, if the elements around the filter have the static pads that they
-- are asked for, the pads of the two next to it fit, a filter bin can be made at any time that fits
-- between them, and so does the one that is there, if any: after any sequence of prompts that
-- enable and disable the filter, each once the probes of the one before have fired, the application
-- is there, the switch is where it was last put, no probe waits, and the pipeline is as the switch
-- says: the filter stands between its neighbours with nothing else linked to it or to the next, or
-- its neighbours are linked to one another.
pub switches-start :
    {G : Gst} (L : IsDocumented G) (N : IsMaking G) (create : G.World → Run (ℕ × G.World))
    {Loop : Type 0} (w₀ : G.World) (e : Elements) (sink : ℕ) (a : App G.World Loop)
    → IsLaidOut N w₀ e sink a
    → CanSwitch G e.primary_detector e.nvvidconv1 e.nvvidconv2
    → (a.is_fpfilter_enabled ≡ true → FitsIn G e.nvvidconv1 e.nvvidconv2 a.fpfilter_bin)
    → ((w : G.World)
        → (bin : ℕ) × (w' : G.World) × (create w ≡ done (bin, w'))
          × IsMade N w w' bin
          × FitsIn G e.nvvidconv1 e.nvvidconv2 bin)
    → (ons : List Bool)
    → (b : App G.World Loop) × (switches G create ons a ≡ done b)
      × IsSettled N b
      × (b.is_fpfilter_enabled ≡ last_of a.is_fpfilter_enabled ons)
switches-start {G = G} L N create w₀ e sink a h C first makes ons =
    let fitted : IsFitted G e.primary_detector e.nvvidconv1 e.nvvidconv2 a = record {
      prev_prev_is = h.main_prev_prev;
      prev_is = h.main_prev;
      next_is = h.main_next;
      filter_fits =
          λ on. subst (FitsIn G e.nvvidconv1 e.nvvidconv2) (sym h.consistent.named) (first on);
    } in
    let (b, done_b, settled, _, last) =
      switches-Gives L N create e.primary_detector e.nvvidconv1 e.nvvidconv2 C makes ons a
        (laid_out-IsSettled N w₀ e sink a h) fitted in
    (b, done_b, settled, last)
