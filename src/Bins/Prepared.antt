-- ===== src/Bins/Prepared.antt =====
-- Elements that are made for a bin while the links do not change, and then put into it in a row.
use mathlib.Core.Path.{subst}
use deepstream_fpfilter.Prelude.{
  ℕ, ◌≡◌, ◌≢◌, refl, sym, ◌∙◌, Bool, true, false, List, [], ◌∷◌, ◌++◌, String, if◌then◌else◌,
}
use deepstream_fpfilter.Pipeline.Gst.{Gst, Value, IsDocumented}
use deepstream_fpfilter.Pipeline.Many.{bin_add_many, link_from}
use deepstream_fpfilter.Pipeline.Making.{IsMaking}
use deepstream_fpfilter.Pipeline.Ready.{
  Grows, AreReady, AreReady-Grows, AreReady-IsMade, nothing-AreReady, bin_new-IsMade,
  factory_make-IsMade, set-Grows,
}
use deepstream_fpfilter.Bins.Ghost.{add_ghost, add_ghost-Grows}
use deepstream_fpfilter.Bins.Row.{
  HoldsRow, HoldsBetween, HoldsNew-Grows, row_filled, row_filled-HoldsBetween,
}

module _ {G : Gst} (N : IsMaking G) where
  -- The first elements are ready, and the view is that of the start.
  abbrev pub Prepared : G.World → List ℕ → G.World → Type 0
  Prepared w es w' = AreReady N w es w' × (G.view w' ≡ G.view w)

  pub Prepared-Grows :
      (w : G.World) (es : List ℕ) (w' w'' : G.World)
      → Prepared w es w'
      → Grows N w' w''
      → Prepared w es w''
  Prepared-Grows w es w' w'' (r, at) g = (AreReady-Grows N w es w' w'' r g, g.same ∙ at)

  pub bin_Prepared : (w : G.World) → Prepared w ((G.bin_new w).0 ∷ []) (G.bin_new w).1
  bin_Prepared w = (
    AreReady-IsMade N w [] [] w (G.bin_new w).1 (G.bin_new w).0 (nothing-AreReady N w)
        (bin_new-IsMade N w),
    N.bin_new-view w,
  )

  -- One more element, between `xs` and `ys`.
  pub make_between :
      (xs ys : List ℕ) (name : String) (w w' : G.World)
      → Prepared w (xs ++ ys) w'
      → (G.factory_make name w').0 ≢ 0
      → Prepared w (xs ++ ((G.factory_make name w').0 ∷ ys)) (G.factory_make name w').1
  make_between xs ys name w w' (r, at) some_e = (
    AreReady-IsMade N w xs ys w' (G.factory_make name w').1 (G.factory_make name w').0 r
        (factory_make-IsMade N name w' some_e),
    N.made-view name w' ∙ at,
  )

  -- A property that is set on some devices only.
  pub set_if-Grows :
      (b : Bool) (e : ℕ) (name : String) (value : Value) (w : G.World)
      → Grows N w (if b then G.set e name value w else w)
  set_if-Grows true e name value w = set-Grows N e name value w
  set_if-Grows false e name value w = record { keeps = λ x h. h; same = refl }

  module _ (L : IsDocumented G) where
    -- Elements that are prepared, put into the bin and linked in a row, with a ghost pad for one of
    -- them.
    pub row_in_bin :
        (w : G.World) (bin a : ℕ) (es : List ℕ) (w₁ : G.World) (e : ℕ) (name : String)
        → Prepared w (bin ∷ a ∷ es) w₁
        → let r = add_ghost G bin e name (link_from G a es (bin_add_many G bin (a ∷ es) w₁)).1 in
          (link_from G a es (bin_add_many G bin (a ∷ es) w₁)).0 ≡ true
          → r.0 ≢ 0
          → HoldsRow N w r.1 r.0 a es
    row_in_bin w bin a es w₁ e name (ready, at₁) ok some_r =
        let w₂ = (link_from G a es (bin_add_many G bin (a ∷ es) w₁)).1 in
        let r = add_ghost G bin e name w₂ in
        let (same, g) = add_ghost-Grows N bin e name w₂ some_r in
        subst (λ b. HoldsRow N w r.1 b a es) (sym same)
          (HoldsNew-Grows N w w₂ r.1 bin (a ∷ es) _ (row_filled N L w w₁ bin a es ready at₁ ok) g)

    -- The same where the result of the links is not looked at.
    pub in_bin-HoldsBetween :
        (w : G.World) (bin a : ℕ) (es : List ℕ) (w₁ : G.World) (e : ℕ) (name : String)
        → Prepared w (bin ∷ a ∷ es) w₁
        → let r = add_ghost G bin e name (link_from G a es (bin_add_many G bin (a ∷ es) w₁)).1 in
          r.0 ≢ 0 → HoldsBetween N w r.1 r.0 (a ∷ es)
    in_bin-HoldsBetween w bin a es w₁ e name (ready, at₁) some_r =
        let w₂ = (link_from G a es (bin_add_many G bin (a ∷ es) w₁)).1 in
        let r = add_ghost G bin e name w₂ in
        let (same, g) = add_ghost-Grows N bin e name w₂ some_r in
        let (next, between, held) = row_filled-HoldsBetween N L w w₁ bin a es ready at₁ in
        subst (λ b. HoldsBetween N w r.1 b (a ∷ es)) (sym same)
          (next, between, HoldsNew-Grows N w w₂ r.1 bin (a ∷ es) next held g)
