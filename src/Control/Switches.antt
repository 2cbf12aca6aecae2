-- ===== src/Control/Switches.antt =====
-- Any sequence of prompts that switch the filter of src/deepstream_fpfilter_app.c.
use deepstream_fpfilter.Prelude.{
  ℕ, ◌≡◌, refl, ap, ◌∙◌, Bool, true, false, Bool-cases, inl, inr, List, [], ◌∷◌, ◌==◌,
  if◌then◌else◌, arith, Run, done, ◌>>=◌,
}
use deepstream_fpfilter.Pipeline.Gst.{Gst, IsDocumented}
use deepstream_fpfilter.Pipeline.Making.{IsMaking}
use deepstream_fpfilter.Pipeline.Ready.{IsMade}
use deepstream_fpfilter.Control.App.{
  App, enable_fpfilter, disable_fpfilter, with_bin, link_in, link_out,
}
use deepstream_fpfilter.Control.Fire.{settle}
use deepstream_fpfilter.Control.Settled.{
  IsSettled, CanSwitch, FitsIn, IsFitted, switch, switches, last_of, made-IsJoined,
  joined-IsSpliceable, unchanged-IsSettled, enabled-IsSettled, disabled-IsSettled,
}

module _ {G : Gst} (L : IsDocumented G) (N : IsMaking G) (create : G.World → Run (ℕ × G.World))
    (prev_prev prev next : ℕ) (C : CanSwitch G prev_prev prev next)
    (makes : (w : G.World)
      → (bin : ℕ) × (w' : G.World) × (create w ≡ done (bin, w'))
        × IsMade N w w' bin
        × FitsIn G prev next bin)
    {Loop : Type 0} where
  -- The run comes back, and the switch is where it was put.
  abbrev Gives : Run (App G.World Loop) → Bool → Type 0
  Gives m on =
      (b : App G.World Loop) × (m ≡ done b)
      × IsSettled N b
      × IsFitted G prev_prev prev next b
      × (b.is_fpfilter_enabled ≡ on)

  enable-Gives :
      (a : App G.World Loop)
      → IsSettled N a
      → IsFitted G prev_prev prev next a
      → a.is_fpfilter_enabled ≡ false
      → Gives (switch G create true a) true
  unfolding switch enable_fpfilter with_bin link_in
  enable-Gives a v f off =
      let i = a.fp_filter_dynamic_link_info in
      let (bin, w, made, m, F) = makes a.pads.world in
      let a₁ : App G.World Loop = record a {
        pads = record (a.pads) { world = w };
        fpfilter_bin = bin;
      } in
      let f₁ : IsFitted G prev_prev prev next a₁ = record {
        prev_prev_is = f.prev_prev_is;
        prev_is = f.prev_is;
        next_is = f.next_is;
        filter_fits = λ on. absurd (cc);
      } in
      let there : (bin == 0) ≡ false = ground (arith, m.loose.some) in
      let b = link_in G bin a₁ in
      (
        record b { pads = settle G b.pads },
        rw (switch, enable_fpfilter, off, made, there) refl,
        enabled-IsSettled L N prev_prev prev next C a₁ bin f₁ F v.unprobed m.loose.some
            (m.keeps i.main_prev_element v.prev_there) (m.keeps i.main_next_element v.next_there)
            (joined-IsSpliceable i (G.view w) bin
              (made-IsJoined N i a.pads.world w bin v.prev_there v.next_there m
                (v.without_filter off))
              m.loose)
            refl,
        record {
          prev_prev_is = f.prev_prev_is;
          prev_is = f.prev_is;
          next_is = f.next_is;
          filter_fits = λ _. F;
        },
        refl,
      )

  disable-Gives :
      (a : App G.World Loop)
      → IsSettled N a
      → IsFitted G prev_prev prev next a
      → a.is_fpfilter_enabled ≡ true
      → Gives (switch G create false a) false
  unfolding switch disable_fpfilter link_out
  disable-Gives a v f on =
      let b = link_out G a in
      (
        record b { pads = settle G b.pads },
        rw (switch, disable_fpfilter, on) refl,
        disabled-IsSettled L N prev_prev prev next C a f v on,
        record {
          prev_prev_is = f.prev_prev_is;
          prev_is = f.prev_is;
          next_is = f.next_is;
          filter_fits = λ e. absurd (cc);
        },
        refl,
      )

  enable_already :
      (a : App G.World Loop) → a.is_fpfilter_enabled ≡ true → enable_fpfilter G create a ≡ done a
  unfolding enable_fpfilter
  enable_already a on =
      ap (λ b. if b then done a else (create a.pads.world >>= λ r. done (with_bin G a r))) on

  switch-Gives :
      (on : Bool) (a : App G.World Loop)
      → IsSettled N a
      → IsFitted G prev_prev prev next a
      → Gives (switch G create on a) on
  unfolding switch enable_fpfilter disable_fpfilter
  switch-Gives true a v f = elim (Bool-cases a.is_fpfilter_enabled) [
    | inl already ↦ (
      a,
      ap (λ (m : Run (App G.World Loop)). m >>= λ b. done (record b { pads = settle G b.pads }))
            (enable_already a already)
          ∙ ap done (unchanged-IsSettled N a v),
      v,
      f,
      already,
    )
    | inr off ↦ enable-Gives a v f off
  ]
  switch-Gives false a v f = elim (Bool-cases a.is_fpfilter_enabled) [
    | inl on ↦ disable-Gives a v f on
    | inr already ↦ (
      a,
      ap (λ (b : App G.World Loop). done (record b { pads = settle G b.pads }))
            (ap (λ on. if on then link_out G a else a) already)
          ∙ ap done (unchanged-IsSettled N a v),
      v,
      f,
      already,
    )
  ]

  -- Any sequence of switches, each once the probes of the one before have fired.
  pub switches-Gives :
      (ons : List Bool) (a : App G.World Loop)
      → IsSettled N a
      → IsFitted G prev_prev prev next a
      → Gives (switches G create ons a) (last_of a.is_fpfilter_enabled ons)
  unfolding switches
  switches-Gives [] a v f = (a, refl, v, f, refl)
  switches-Gives (on ∷ ons) a v f =
      let (b, e, v', f', at_on) = switch-Gives on a v f in
      let (c, e', v'', f'', last) = switches-Gives ons b v' f' in
      (c, rw e e', v'', f'', rw at_on at last)
