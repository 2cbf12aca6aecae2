-- ===== src/Bins/Ghost.antt =====
-- The end of each function of src/deepstream_fpfilter_app.c that makes a bin: the bin's ghost pad.
use deepstream_fpfilter.Prelude.{ℕ, ◌≡◌, ◌≢◌, refl, Bool, true, false, ◌==◌, if◌then◌else◌, String}
use deepstream_fpfilter.Pipeline.Gst.{Gst}
use deepstream_fpfilter.Pipeline.Making.{IsMaking}
use deepstream_fpfilter.Pipeline.Ready.{Grows, add_ghost_pad-Grows}

module _ (G : Gst) where
  -- A ghost pad for the static pad `name` of `e`; NULL where the pad is missing or cannot be added.
  unfoldable pub add_ghost : ℕ → ℕ → String → G.World → ℕ × G.World
  add_ghost bin e name w =
      let pad = G.get_static_pad e name w in
      let (added, w') = G.add_ghost_pad bin name pad w in
      if pad == 0 then (0, w) else if added then (bin, w') else (0, w')

-- Behind a test that returns NULL: a property of what is returned where it is not NULL.
pub unless {ℓ κ} :
    {W : Type ℓ} (P : ℕ × W → Type κ) (b : Bool) (w : W) (r : ℕ × W)
    → (b ≡ false → r.0 ≢ 0 → P r)
    → (if b then (0, w) else r).0 ≢ 0
    → P (if b then (0, w) else r)
unless P true w r f h = absurd (h refl)
unless P false w r f h = f refl h

-- The same, where the test has to hold.
where_it_holds {ℓ κ} :
    {W : Type ℓ} (P : ℕ × W → Type κ) (b : Bool) (w : W) (r : ℕ × W)
    → P r
    → (if b then r else (0, w)).0 ≢ 0
    → P (if b then r else (0, w))
where_it_holds P true w r p h = p
where_it_holds P false w r p h = absurd (h refl)

module _ {G : Gst} (N : IsMaking G) where
  -- Where it is not NULL, it is the bin, in a world where only the pad is new.
  pub add_ghost-Grows :
      (bin e : ℕ) (name : String) (w : G.World)
      → (add_ghost G bin e name w).0 ≢ 0
      → ((add_ghost G bin e name w).0 ≡ bin) × Grows N w (add_ghost G bin e name w).1
  unfolding add_ghost
  add_ghost-Grows bin e name w =
      let pad = G.get_static_pad e name w in
      let (added, w') = G.add_ghost_pad bin name pad w in
      unless (λ r. (r.0 ≡ bin) × Grows N w r.1) (pad == 0) w _
        (λ _.
          where_it_holds (λ r. (r.0 ≡ bin) × Grows N w r.1) added w' (bin, w')
            (refl, add_ghost_pad-Grows N bin name pad w))
