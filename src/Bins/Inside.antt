-- ===== src/Bins/Inside.antt =====
-- What `create_filter_elements_bin` of src/deepstream_fpfilter_app.c puts into the bin.
use mathlib.Core.Path.{subst}
use deepstream_fpfilter.Prelude.{
  ℕ, ◌≡◌, ◌≢◌, refl, sym, Bool-cases, inl, inr, some, not, List, [], ◌∷◌, ◌++◌, ◌==◌, ◌||◌, arith,
  All, done,
}
use deepstream_fpfilter.Prelude.Int.{pos}
use deepstream_fpfilter.Prelude.Text.{codes}
use deepstream_fpfilter.Pipeline.Gst.{Gst, IsDocumented, string, int}
use deepstream_fpfilter.Pipeline.Making.{IsMaking}
use deepstream_fpfilter.Pipeline.Many.{bin_add_many, link_from, RowFits}
use deepstream_fpfilter.Pipeline.Ready.{Grows, Grows-then, set-Grows, add_ghost_pad-Grows}
use deepstream_fpfilter.Config.KeyFile.{KeyFiles}
use deepstream_fpfilter.Config.Path.{slash}
use deepstream_fpfilter.Config.Tracker.{tracker_config_file, usable, set_tracker_properties-Gives}
use deepstream_fpfilter.Config.Keeps.{set_tracker_properties-Keeps}
use deepstream_fpfilter.Bins.Ghost.{unless}
use deepstream_fpfilter.Bins.Row.{
  HoldsRow, HoldsBetween, HoldsNew-Grows, row_filled, row_filled-HoldsBetween, row_fits,
}
use deepstream_fpfilter.Bins.Prepared.{Prepared, Prepared-Grows, bin_Prepared, make_between}
use deepstream_fpfilter.Bins.Filter.{add_ghost_pads, fill_bin, create_filter_elements_bin}

module _ {G : Gst} (L : IsDocumented G) (N : IsMaking G) where
  -- Where it is not NULL, it is the bin, in a world where only the pads are new.
  add_ghost_pads-Grows :
      (bin t f : ℕ) (w : G.World)
      → let r = add_ghost_pads G bin t f w in r.0 ≢ 0 → (r.0 ≡ bin) × Grows N w r.1
  unfolding add_ghost_pads
  add_ghost_pads-Grows bin t f w =
      let src = G.get_static_pad f "src" w in
      let (src_added, w₁) = G.add_ghost_pad bin "src" src w in
      let sink = G.get_static_pad t "sink" w₁ in
      let (sink_added, w₂) = G.add_ghost_pad bin "sink" sink w₁ in
      let P : ℕ × G.World → Type 0 = λ r. (r.0 ≡ bin) × Grows N w r.1 in
      unless P (src == 0) w _ (λ _. unless P (not src_added) w₁ _ (λ _.
        unless P (sink == 0) w₁ _ (λ _.
          unless P (not sink_added) w₂ (bin, w₂)
            (λ _ _. (
              refl,
              Grows-then N w w₁ w₂ (add_ghost_pad-Grows N bin "src" src w)
                  (add_ghost_pad-Grows N bin "sink" sink w₁),
            )))))

  fill_bin-HoldsBetween :
      (bin t d f : ℕ) (w w₁ : G.World)
      → Prepared N w (bin ∷ t ∷ d ∷ f ∷ []) w₁
      → let r = fill_bin G bin t d f w₁ in
        r.0 ≢ 0
        → (r.0 ≡ bin)
          × HoldsBetween N w r.1 r.0 (t ∷ d ∷ f ∷ [])
          × (RowFits G t (d ∷ f ∷ []) → HoldsRow N w r.1 r.0 t (d ∷ f ∷ []))
  unfolding fill_bin
  fill_bin-HoldsBetween bin t d f w w₁ prepared some_r =
      let detector = string (some (codes "config/config_infer_peoplesemsegnet.txt")) in
      let filter = string (some (codes "config/ds_fpfilter_config.txt")) in
      let w₂ = G.set d "config-file-path" detector w₁ in
      let w₃ = G.set f "config-file-path" filter w₂ in
      let w₄ = G.set f "enable-fp-filter" (int (pos 1)) w₃ in
      let (ready, at₄) = Prepared-Grows N w _ w₁ w₄ prepared (
        Grows-then N w₁ w₂ w₄ (set-Grows N d "config-file-path" detector w₁) (
          Grows-then N w₂ w₃ w₄ (set-Grows N f "config-file-path" filter w₂)
            (set-Grows N f "enable-fp-filter" (int (pos 1)) w₃))) in
      let w₅ = (link_from G t (d ∷ f ∷ []) (bin_add_many G bin (t ∷ d ∷ f ∷ []) w₄)).1 in
      let (same, g) = add_ghost_pads-Grows bin t f w₅ some_r in
      let w₆ = (fill_bin G bin t d f w₁).1 in
      let (next, between, held) = row_filled-HoldsBetween N L w w₄ bin t (d ∷ f ∷ []) ready at₄ in
      (
        same,
        subst (λ b. HoldsBetween N w w₆ b (t ∷ d ∷ f ∷ [])) (sym same)
            (next, between, HoldsNew-Grows N w w₅ w₆ bin _ next held g),
        λ fits.
            let linked = row_fits N L w w₄ bin t (d ∷ f ∷ []) ready at₄ fits in
            subst (λ b. HoldsRow N w w₆ b t (d ∷ f ∷ [])) (sym same)
              (HoldsNew-Grows N w w₅ w₆ bin _ _
                (row_filled N L w w₄ bin t (d ∷ f ∷ []) ready at₄ linked) g),
      )

-- The tracker, the detector and the filter that are made, one after the other.
abbrev made_elements : (G : Gst) → G.World → ℕ × ℕ × ℕ
made_elements G w =
    let (t, w₂) = G.factory_make "nvtracker" (G.bin_new w).1 in
    let (d, w₃) = G.factory_make "nvinfer" w₂ in (t, d, (G.factory_make "nvfpfilter" w₃).0)

module _ (K : KeyFiles) {G : Gst} (L : IsDocumented G) (N : IsMaking G) (dir name : List ℕ)
    (real : K.realpath tracker_config_file ≡ some (dir ++ (slash ∷ name)))
    (simple : All (λ c. c ≢ slash) name) where
  -- `create_filter_elements_bin` returns, and a bin that it returns is the one made first; it holds the
  -- three elements, and no link, bin or state has changed but the links of the three.
  pub create_filter_elements_bin-HoldsBetween :
      (w : G.World)
      → (bin : ℕ) × (w' : G.World) × (create_filter_elements_bin K G w ≡ done (bin, w'))
        × (bin ≢ 0
            → (bin ≡ (G.bin_new w).0)
              × (let (t, d, f) = made_elements G w in
                  HoldsBetween N w w' bin (t ∷ d ∷ f ∷ [])
                  × (RowFits G t (d ∷ f ∷ []) → HoldsRow N w w' bin t (d ∷ f ∷ []))))
  unfolding create_filter_elements_bin
  create_filter_elements_bin-HoldsBetween w =
      let (bin, w₁) = G.bin_new w in
      let (t, w₂) = G.factory_make "nvtracker" w₁ in
      let (d, w₃) = G.factory_make "nvinfer" w₂ in
      let (f, w₄) = G.factory_make "nvfpfilter" w₃ in
      elim (Bool-cases (t == 0 || d == 0 || f == 0)) [
        | inl null ↦ (0, w₄, rw null refl, λ h. absurd (h refl))
        | inr made ↦
            let (w₅, e) = set_tracker_properties-Gives K G t dir name real simple w₄ in
            let g : Grows N w₄ w₅ = rw e at (set_tracker_properties-Keeps K G N t w₄) in
            let p₂ =
              make_between N (bin ∷ []) [] "nvtracker" w w₁ (bin_Prepared N w) (ground arith) in
            let p₃ = make_between N (bin ∷ t ∷ []) [] "nvinfer" w w₂ p₂ (ground arith) in
            let p₄ = make_between N (bin ∷ t ∷ d ∷ []) [] "nvfpfilter" w w₃ p₃ (ground arith) in
            elim (Bool-cases (usable K (K.load_from_file tracker_config_file))) [
              | inl ok ↦ (
                (fill_bin G bin t d f w₅).0,
                (fill_bin G bin t d f w₅).1,
                rw (made, e, ok) refl,
                λ some_bin.
                    let (same, held, row) =
                      fill_bin-HoldsBetween L N bin t d f w w₅ (Prepared-Grows N w _ w₄ w₅ p₄ g)
                        some_bin in
                    (same, (held, row)),
              )
              | inr bad ↦ (0, w₅, rw (made, e, bad) refl, λ h. absurd (h refl))
            ]
      ]

  -- Where `realpath` gives the tracker configuration a directory and the pads of the three elements
  -- that are made fit, so that the links, whose result is not looked at, succeed:
  -- `create_filter_elements_bin` returns, and if it returns a bin, the bin is the one made first, it
  -- holds the three new elements, each linked to the next, and no other link, bin or state has
  -- changed.
  pub create_filter_elements_bin-HoldsRow :
      (w : G.World)
      → let (t, d, f) = made_elements G w in
        RowFits G t (d ∷ f ∷ [])
        → (bin : ℕ) × (w' : G.World) × (create_filter_elements_bin K G w ≡ done (bin, w'))
          × (bin ≢ 0 → (bin ≡ (G.bin_new w).0) × HoldsRow N w w' bin t (d ∷ f ∷ []))
  create_filter_elements_bin-HoldsRow w fits =
      let (bin, w', e, h) = create_filter_elements_bin-HoldsBetween w in
      (bin, w', e, λ some_bin. let (same, (_, row)) = h some_bin in (same, row fits))
