-- ===== src/Main/Elements.antt =====
-- The elements that `main` of src/deepstream_fpfilter_app.c makes are there, loose and distinct.
use deepstream_fpfilter.Prelude.{
  ℕ, String, ◌≡◌, ◌≢◌, refl, Bool, true, false, ◌||◌, none, some, List, [], ◌∷◌, ◌++◌, ◌==◌,
  if◌then◌else◌, arith, Run, done, fault, spent, ◌>>=◌, Returns, Holds, Holds-if,
}
use deepstream_fpfilter.Prelude.Int.{pos}
use deepstream_fpfilter.Prelude.Text.{codes}
use deepstream_fpfilter.Pipeline.Gst.{Gst, string, int, bus_call}
use deepstream_fpfilter.Pipeline.Making.{IsMaking}
use deepstream_fpfilter.Pipeline.Ready.{
  Grows, Grows-then, IsMade, AreReady, AreReady-IsMade, nothing-AreReady, bin_new-IsMade,
  factory_make-IsMade, set-Grows, connect-Grows,
}
use deepstream_fpfilter.Main.Start.{Elements, create_elements, set_properties, create_filter}

-- The elements but for the sink and the filter, in the order of the stream.
abbrev pub made_first : Elements → List ℕ
made_first e =
    e.pipeline ∷ e.source ∷ e.streammux ∷ e.primary_detector ∷ e.nvvidconv1 ∷ e.nvvidconv2 ∷ e.nvosd
    ∷ e.nvvidconv3 ∷ []

-- The order of the stream behind the muxer: the filter, where there is one, stands between the two
-- converters in front of the display.
abbrev pub in_order : Elements → ℕ → Bool → ℕ → List ℕ
in_order e sink is_fpfilter_enabled fpfilter_bin =
    let behind = e.nvvidconv2 ∷ e.nvosd ∷ e.nvvidconv3 ∷ sink ∷ [] in
    if is_fpfilter_enabled
    then e.primary_detector ∷ e.nvvidconv1 ∷ fpfilter_bin ∷ behind
    else e.primary_detector ∷ e.nvvidconv1 ∷ behind

-- All elements, in the order of the stream.
abbrev pub all_elements : Elements → ℕ → Bool → ℕ → List ℕ
all_elements e sink is_fpfilter_enabled fpfilter_bin =
    e.pipeline ∷ e.source ∷ e.streammux ∷ in_order e sink is_fpfilter_enabled fpfilter_bin

module _ {G : Gst} (N : IsMaking G) where
  make :
      (w₀ : G.World) (xs ys : List ℕ) (name : String) (w : G.World)
      → AreReady N w₀ (xs ++ ys) w
      → (G.factory_make name w).0 ≢ 0
      → AreReady N w₀ (xs ++ ((G.factory_make name w).0 ∷ ys)) (G.factory_make name w).1
  make w₀ xs ys name w r some_e =
      AreReady-IsMade N w₀ xs ys w (G.factory_make name w).1 (G.factory_make name w).0 r
        (factory_make-IsMade N name w some_e)

  pub create_elements-AreReady :
      (create_source_bin : List ℕ → G.World → ℕ × G.World)
      → ((location : List ℕ) (w : G.World)
          → let (bin, w') = create_source_bin location w in bin ≢ 0 → IsMade N w w' bin)
      → (location : List ℕ) (w : G.World)
      → Holds
          (λ (e, w'). AreReady N w (made_first e) w')
          (create_elements G create_source_bin location w)
  unfolding create_elements
  create_elements-AreReady create_source_bin source_made location w =
      let (pl, w₁) = G.bin_new w in
      let (so, w₂) = create_source_bin location w₁ in
      let (mu, w₃) = G.factory_make "nvstreammux" w₂ in
      let (de, w₄) = G.factory_make "nvinfer" w₃ in
      let (c1, w₅) = G.factory_make "nvvideoconvert" w₄ in
      let (c2, w₆) = G.factory_make "nvvideoconvert" w₅ in
      let (c3, w₇) = G.factory_make "nvvideoconvert" w₆ in
      let (os, w₈) = G.factory_make "nvdsosd" w₇ in
      let P : Elements × G.World → Type 0 = λ (e, w'). AreReady N w (made_first e) w' in
      Holds-if P (pl == 0 || mu == 0) _ (λ h.
        Holds-if P (so == 0 || de == 0 || c1 == 0 || c2 == 0 || c3 == 0 || os == 0) _ (λ g.
          let r₁ = AreReady-IsMade N w [] [] w w₁ pl (nothing-AreReady N w) (bin_new-IsMade N w) in
          let r₂ =
            AreReady-IsMade N w (pl ∷ []) [] w₁ w₂ so r₁ (source_made location w₁ (ground arith)) in
          let r₃ = make w (pl ∷ so ∷ []) [] "nvstreammux" w₂ r₂ (ground arith) in
          let r₄ = make w (pl ∷ so ∷ mu ∷ []) [] "nvinfer" w₃ r₃ (ground arith) in
          let r₅ = make w (pl ∷ so ∷ mu ∷ de ∷ []) [] "nvvideoconvert" w₄ r₄ (ground arith) in
          let r₆ = make w (pl ∷ so ∷ mu ∷ de ∷ c1 ∷ []) [] "nvvideoconvert" w₅ r₅ (ground arith) in
          let r₇ =
            make w (pl ∷ so ∷ mu ∷ de ∷ c1 ∷ c2 ∷ []) [] "nvvideoconvert" w₆ r₆ (ground arith) in
          make w (pl ∷ so ∷ mu ∷ de ∷ c1 ∷ c2 ∷ []) (c3 ∷ []) "nvdsosd" w₇ r₇ (ground arith)))

  pub set_properties-Grows : (e : Elements) (w : G.World) → Grows N w (set_properties G e w)
  unfolding set_properties
  set_properties-Grows e w =
      let w₁ = G.set e.streammux "width" (int (pos 960)) w in
      let w₂ = G.set e.streammux "height" (int (pos 544)) w₁ in
      let w₃ = G.set e.streammux "batch-size" (int (pos 1)) w₂ in
      let w₄ = G.set e.streammux "batched-push-timeout" (int (pos 40000)) w₃ in
      let config = string (some (codes "config/config_infer_peoplenet.txt")) in
      let w₅ = G.set e.primary_detector "config-file-path" config w₄ in
      let w₆ = G.set e.nvosd "display-mask" (int (pos 1)) w₅ in
      let w₇ = G.set e.nvosd "display-bbox" (int (pos 1)) w₆ in
      let w₈ = G.set e.nvosd "process-mode" (int (pos 0)) w₇ in
      Grows-then N w w₁ _ (set-Grows N e.streammux "width" _ w) (
        Grows-then N w₁ w₂ _ (set-Grows N e.streammux "height" _ w₁) (
          Grows-then N w₂ w₃ _ (set-Grows N e.streammux "batch-size" _ w₂) (
            Grows-then N w₃ w₄ _ (set-Grows N e.streammux "batched-push-timeout" _ w₃) (
              Grows-then N w₄ w₅ _ (set-Grows N e.primary_detector "config-file-path" _ w₄) (
                Grows-then N w₅ w₆ _ (set-Grows N e.nvosd "display-mask" _ w₅) (
                  Grows-then N w₆ w₇ _ (set-Grows N e.nvosd "display-bbox" _ w₆) (
                    Grows-then N w₇ w₈ _ (set-Grows N e.nvosd "process-mode" _ w₇)
                      (connect-Grows N (G.get_bus e.pipeline w₈) bus_call w₈))))))))

  -- The filter that is made, or NULL and the same world, where the filter is not enabled.
  abbrev pub FilterMade : Bool → G.World → ℕ × G.World → Type 0
  FilterMade true w (bin, w') = IsMade N w w' bin
  FilterMade false w (bin, w') = (bin ≡ 0) × (w' ≡ w)

  filter_or_none :
      (w : G.World) (m : Run (ℕ × G.World))
      → Returns (λ (bin, w'). bin ≢ 0 → IsMade N w w' bin) m
      → Returns
          (Holds (FilterMade true w))
          (m >>= λ (bin, w'). done (if bin == 0 then none else some (bin, w')))
  filter_or_none w (done (bin, w')) h =
      Holds-if (FilterMade true w) (bin == 0) (some (bin, w')) (λ there. h (ground arith))
  filter_or_none w fault h = tt
  filter_or_none w spent h = tt

  pub create_filter-FilterMade :
      (create : G.World → Run (ℕ × G.World))
      → ((w : G.World) → Returns (λ (bin, w'). bin ≢ 0 → IsMade N w w' bin) (create w))
      → (on : Bool) (w : G.World) → Returns (Holds (FilterMade on w)) (create_filter G create on w)
  unfolding create_filter
  create_filter-FilterMade create made true w = filter_or_none w (create w) (made w)
  create_filter-FilterMade create made false w = (refl, refl)

  -- The sink and the filter join the elements.
  pub all_elements-AreReady :
      (w₀ : G.World) (e : Elements) (sink : ℕ) (on : Bool) (bin : ℕ) (w w₁ w₂ : G.World)
      → AreReady N w₀ (made_first e) w
      → IsMade N w w₁ sink
      → FilterMade on w₁ (bin, w₂)
      → AreReady N w₀ (all_elements e sink on bin) w₂
  all_elements-AreReady w₀ e sink true bin w w₁ w₂ r s f =
      AreReady-IsMade N w₀
        (e.pipeline ∷ e.source ∷ e.streammux ∷ e.primary_detector ∷ e.nvvidconv1 ∷ [])
        (e.nvvidconv2 ∷ e.nvosd ∷ e.nvvidconv3 ∷ sink ∷ []) w₁ w₂ bin
        (AreReady-IsMade N w₀ (made_first e) [] w w₁ sink r s) f
  all_elements-AreReady w₀ e sink false bin w w₁ w₂ r s (_, same) =
      rw same (AreReady-IsMade N w₀ (made_first e) [] w w₁ sink r s)
