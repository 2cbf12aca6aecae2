-- ===== src/Control/Settled.antt =====
-- The switch of src/deepstream_fpfilter_app.c, used again and again, each time until no probe waits.
use mathlib.Core.Path.{subst}
use deepstream_fpfilter.Prelude.{
  ℕ, ◌≡◌, ◌≢◌, refl, sym, ap, ◌∙◌, Bool, true, false, List, [], ◌∷◌, if◌then◌else◌, arith, Run,
  done, ◌>>=◌,
}
use deepstream_fpfilter.Pipeline.Gst.{Gst, View, IsDocumented, Fits}
use deepstream_fpfilter.Pipeline.Making.{IsMaking}
use deepstream_fpfilter.Pipeline.Many.{IsLoose}
use deepstream_fpfilter.Pipeline.Ready.{IsMade}
use deepstream_fpfilter.Pipeline.Link.{LinkUnlinkInfo, add_elem_probe, pad_probe}
use deepstream_fpfilter.Pipeline.Splice.{spliced, IsSpliceable, HasPads, FitsBetween}
use deepstream_fpfilter.Pipeline.Unsplice.{IsSpliced, unspliced, spliced-IsSpliced}
use deepstream_fpfilter.Control.App.{App, enable_fpfilter, disable_fpfilter, link_in, link_out}
use deepstream_fpfilter.Control.Consistent.{IsConsistent}
use deepstream_fpfilter.Control.Fire.{settle, settle_splices, settle_unsplices, settle_nothing}

-- The neighbours of the filter are in the pipeline and linked to one another, and nothing else to the
-- second.
pub record IsJoined (i : LinkUnlinkInfo) (v : View) : Type 0 where
  pub linked : v.next i.main_prev_element ≡ i.main_next_element
  pub some_next : i.main_next_element ≢ 0
  pub only : (x : ℕ) → v.next x ≡ i.main_next_element → x ≡ i.main_prev_element
  pub prev_inside : v.parent i.main_prev_element ≡ i.pipeline
  pub next_inside : v.parent i.main_next_element ≡ i.pipeline

pub joined-IsSpliceable :
    (i : LinkUnlinkInfo) (v : View) (bin : ℕ)
    → IsJoined i v
    → IsLoose v bin
    → IsSpliceable (record i { main_element = bin }) v
joined-IsSpliceable i v bin h l = record {
  some_main = l.some;
  linked = h.linked;
  some_next = h.some_next;
  loose = l.open_end;
  free = l.free;
  only = h.only;
  alone = l.alone;
  prev_inside = h.prev_inside;
  next_inside = h.next_inside;
}

unspliced-IsJoined :
    (i : LinkUnlinkInfo) (v : View)
    → IsSpliced i v
    → (depth : ℕ) → IsJoined (record i { main_element = 0 }) (unspliced depth i v)
unspliced-IsJoined i v h depth = record {
  linked = ground arith;
  some_next = h.some_next;
  only = λ x e. ground (arith, h.only_next x, h.some_next);
  prev_inside = ground (arith, h.apart, h.prev_inside);
  next_inside = ground (arith, h.apart_next, h.next_inside);
}

module _ {G : Gst} (N : IsMaking G) where
  -- No probe waits, and the pipeline is what the switch says: the filter stands between its neighbours,
  -- or these are linked to one another.
  pub record IsSettled {Loop : Type 0} (a : App G.World Loop) : Type 0 where
    pub consistent : IsConsistent a
    pub unprobed : a.pads.probes ≡ []
    pub prev_there : N.Exists a.pads.world a.fp_filter_dynamic_link_info.main_prev_element
    pub next_there : N.Exists a.pads.world a.fp_filter_dynamic_link_info.main_next_element
    pub with_filter :
        a.is_fpfilter_enabled ≡ true → IsSpliced a.fp_filter_dynamic_link_info (G.view a.pads.world)
    pub without_filter :
        a.is_fpfilter_enabled ≡ false → IsJoined a.fp_filter_dynamic_link_info (G.view a.pads.world)

  -- What is joined stays so while a bin is made.
  pub made-IsJoined :
      (i : LinkUnlinkInfo) (w w' : G.World) (bin : ℕ)
      → N.Exists w i.main_prev_element
      → N.Exists w i.main_next_element
      → IsMade N w w' bin
      → IsJoined i (G.view w)
      → IsJoined i (G.view w')
  made-IsJoined i w w' bin prev next m h = record {
    linked = m.same_next i.main_prev_element prev ∙ h.linked;
    some_next = h.some_next;
    only = λ x g. h.only x (m.same_leads x i.main_next_element next g);
    prev_inside = m.same_parent i.main_prev_element prev ∙ h.prev_inside;
    next_inside = m.same_parent i.main_next_element next ∙ h.next_inside;
  }

-- The three elements around the filter: those that are asked for static pads have them, and the pads of
-- the two next to the filter fit.
pub record CanSwitch (G : Gst) (prev_prev prev next : ℕ) : Type 0 where
  pub block : (w : G.World) → G.get_static_pad prev_prev "src" w ≢ 0
  pub src : (w : G.World) → G.get_static_pad prev "src" w ≢ 0
  pub sink : (w : G.World) → G.get_static_pad next "sink" w ≢ 0
  pub fits : Fits G prev next

-- A filter bin has its source pad, and its pads fit those of its neighbours.
pub record FitsIn (G : Gst) (prev next bin : ℕ) : Type 0 where
  pub src : (w : G.World) → G.get_static_pad bin "src" w ≢ 0
  pub before : Fits G prev bin
  pub behind : Fits G bin next

module _ (G : Gst) (create : G.World → Run (ℕ × G.World)) {Loop : Type 0} where
  -- A prompt that enables or disables the filter, and then the probes.
  unfoldable pub switch : Bool → App G.World Loop → Run (App G.World Loop)
  switch on a = (if on then enable_fpfilter G create a else done (disable_fpfilter G a)) >>= λ b.
      done (record b { pads = settle G b.pads })

  unfoldable pub switches : List Bool → App G.World Loop → Run (App G.World Loop)
  unfolding switch
  switches [] a = done a
  switches (on ∷ ons) a = switch on a >>= λ b. switches ons b

-- What the switch is set to last.
abbrev pub last_of : Bool → List Bool → Bool
last_of b [] = b
last_of b (on ∷ ons) = last_of on ons

module _ (G : Gst) (prev_prev prev next : ℕ) {Loop : Type 0} where
  -- The info names these elements, and a filter that is in place fits.
  pub record IsFitted (a : App G.World Loop) : Type 0 where
    pub prev_prev_is : a.fp_filter_dynamic_link_info.main_prev_prev_element ≡ prev_prev
    pub prev_is : a.fp_filter_dynamic_link_info.main_prev_element ≡ prev
    pub next_is : a.fp_filter_dynamic_link_info.main_next_element ≡ next
    pub filter_fits :
        a.is_fpfilter_enabled ≡ true → FitsIn G prev next a.fp_filter_dynamic_link_info.main_element

module _ {G : Gst} (L : IsDocumented G) (N : IsMaking G) (prev_prev prev next : ℕ)
    (C : CanSwitch G prev_prev prev next) {Loop : Type 0} where
  module _ (a : App G.World Loop) (f : IsFitted G prev_prev prev next a) where
    open a.fp_filter_dynamic_link_info use {
      main_prev_prev_element as pp, main_prev_element as p, main_next_element as n,
    }

    found : (w : G.World) → G.get_static_pad pp "src" w ≢ 0
    found w = subst (λ x. G.get_static_pad x "src" w ≢ 0) (sym f.prev_prev_is) (C.block w)

    -- The pads of the neighbours, whatever the main element.
    neighbours-HasPads :
        (bin : ℕ) → HasPads G (record (a.fp_filter_dynamic_link_info) { main_element = bin })
    neighbours-HasPads bin = record {
      src = λ w. subst (λ x. G.get_static_pad x "src" w ≢ 0) (sym f.prev_is) (C.src w);
      sink = λ w. subst (λ x. G.get_static_pad x "sink" w ≢ 0) (sym f.next_is) (C.sink w);
    }

    neighbours-Fits : Fits G p n
    neighbours-Fits =
        subst (λ x. Fits G x n) (sym f.prev_is) (subst (Fits G prev) (sym f.next_is) C.fits)

    bin-FitsBetween :
        (bin : ℕ)
        → FitsIn G prev next bin
        → FitsBetween G (record (a.fp_filter_dynamic_link_info) { main_element = bin })
    bin-FitsBetween bin F = record {
      before = subst (λ x. Fits G x bin) (sym f.prev_is) F.before;
      behind = subst (Fits G bin) (sym f.next_is) F.behind;
    }

    link_in_waits :
        (bin : ℕ)
        → a.pads.probes ≡ []
        → let info = record (a.fp_filter_dynamic_link_info) { main_element = bin } in
          let b = link_in G bin a in
          (b.pads.probes ≡ (a.pads.next_id, add_elem_probe info) ∷ [])
          × (b.pads.world ≡ a.pads.world)
    unfolding link_in
    link_in_waits bin none_waits = let there = found a.pads.world in ground arith

    link_out_waits :
        a.pads.probes ≡ []
        → let b = link_out G a in
          (b.pads.probes ≡ (a.pads.next_id, pad_probe a.fp_filter_dynamic_link_info) ∷ [])
          × (b.pads.world ≡ a.pads.world)
    unfolding link_out
    link_out_waits none_waits = let there = found a.pads.world in ground arith

  pub enabled-IsSettled :
      (a : App G.World Loop) (bin : ℕ)
      → IsFitted G prev_prev prev next a
      → FitsIn G prev next bin
      → a.pads.probes ≡ []
      → bin ≢ 0
      → N.Exists a.pads.world a.fp_filter_dynamic_link_info.main_prev_element
      → N.Exists a.pads.world a.fp_filter_dynamic_link_info.main_next_element
      → IsSpliceable
          (record (a.fp_filter_dynamic_link_info) { main_element = bin })
          (G.view a.pads.world)
      → a.fpfilter_bin ≡ bin
      → let b = link_in G bin a in IsSettled N (record b { pads = settle G b.pads })
  unfolding link_in
  enabled-IsSettled a bin f F none_waits some_bin prev_there next_there h named =
      let i : LinkUnlinkInfo = record (a.fp_filter_dynamic_link_info) { main_element = bin } in
      let b = link_in G bin a in
      let (waits, at_w) = link_in_waits a f bin none_waits in
      let (settled, view, keeps) =
        settle_splices L N i (neighbours-HasPads a f bin) (bin-FitsBetween a f bin F) a.pads.next_id
          b.pads waits (subst (λ w. IsSpliceable i (G.view w)) (sym at_w) h) in
      record {
        consistent = record {
          named = sym named;
          on_bin = λ _. subst (λ x. x ≢ 0) (sym named) some_bin;
          off_bin = λ e. absurd (cc);
        };
        unprobed = settled;
        prev_there =
            keeps i.main_prev_element
              (subst (λ w. N.Exists w i.main_prev_element) (sym at_w) prev_there);
        next_there =
            keeps i.main_next_element
              (subst (λ w. N.Exists w i.main_next_element) (sym at_w) next_there);
        with_filter = λ _.
            subst (IsSpliced i) (sym (view ∙ ap (λ w. spliced G.depth i (G.view w)) at_w))
              (spliced-IsSpliced i (G.view a.pads.world) h G.depth);
        without_filter = λ e. absurd (cc);
      }

  pub disabled-IsSettled :
      (a : App G.World Loop)
      → IsFitted G prev_prev prev next a
      → IsSettled N a
      → a.is_fpfilter_enabled ≡ true
      → let b = link_out G a in IsSettled N (record b { pads = settle G b.pads })
  unfolding link_out
  disabled-IsSettled a f v on =
      let i = a.fp_filter_dynamic_link_info in
      let b = link_out G a in
      let (waits, at_w) = link_out_waits a f v.unprobed in
      let h = v.with_filter on in
      let (settled, view, keeps) =
        settle_unsplices L N i (neighbours-HasPads a f i.main_element) (neighbours-Fits a f)
          a.pads.next_id b.pads waits (subst (λ w. IsSpliced i (G.view w)) (sym at_w) h)
          (f.filter_fits on).src in
      record {
        consistent = record { named = refl; on_bin = λ e. absurd (cc); off_bin = λ _. refl };
        unprobed = settled;
        prev_there =
            keeps i.main_prev_element
              (ap (λ w. (G.view w).parent i.main_prev_element) at_w ∙ h.prev_inside) h.apart
              (subst (λ w. N.Exists w i.main_prev_element) (sym at_w) v.prev_there);
        next_there =
            keeps i.main_next_element
              (ap (λ w. (G.view w).parent i.main_next_element) at_w ∙ h.next_inside)
              (λ e. h.apart_next (sym e))
              (subst (λ w. N.Exists w i.main_next_element) (sym at_w) v.next_there);
        with_filter = λ e. absurd (cc);
        without_filter = λ _.
            subst (IsJoined (record i { main_element = 0 }))
              (sym (view ∙ ap (λ w. unspliced G.depth i (G.view w)) at_w))
              (unspliced-IsJoined i (G.view a.pads.world) h G.depth);
      }

-- A prompt that changes nothing.
pub unchanged-IsSettled :
    {G : Gst} (N : IsMaking G) {Loop : Type 0} (a : App G.World Loop)
    → IsSettled N a
    → record a { pads = settle G a.pads } ≡ a
unchanged-IsSettled {G = G} N a v =
    ap (λ s. record a { pads = s }) (settle_nothing G a.pads v.unprobed)
