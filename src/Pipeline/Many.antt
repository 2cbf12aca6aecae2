-- ===== src/Pipeline/Many.antt =====
-- `gst_bin_add_many` and `gst_element_link_many`, whose arguments end at the first NULL, and what they
-- do to elements that are loose.
use deepstream_fpfilter.Prelude.{
  ℕ, ◌≡◌, ◌≢◌, refl, sym, ◌∙◌, Bool, true, false, List, [], ◌∷◌, ◌++◌, ◌==◌, if◌then◌else◌, All,
  All-map, All-zip, All-insert, All-remove, arith,
}
use deepstream_fpfilter.Pipeline.Gst.{Gst, View, IsDocumented, IsFree, Fits, update}
use deepstream_fpfilter.Pipeline.Views.{bin_add_to, link_done, link_to}

module _ (G : Gst) where
  unfoldable pub bin_add_many : ℕ → List ℕ → G.World → G.World
  bin_add_many bin [] w = w
  bin_add_many bin (e ∷ es) w =
      let rest = bin_add_many bin es (G.bin_add bin e w) in if e == 0 then w else rest

  -- From the element that has been linked last; it stops at the first link that fails.
  unfoldable pub link_from : ℕ → List ℕ → G.World → Bool × G.World
  link_from a [] w = (true, w)
  link_from a (b ∷ es) w =
      let (linked, w') = G.link a b w in
      let rest = link_from b es w' in
      if b == 0 then (true, w) else if linked then rest else (false, w')

-- The links once each element is linked to the next.
abbrev pub chain : ℕ → List ℕ → (ℕ → ℕ) → ℕ → ℕ
chain a [] next = next
chain a (b ∷ es) next = chain b es (update next a b)

-- The bins once the elements are in `bin`.
abbrev pub inside : ℕ → List ℕ → (ℕ → ℕ) → ℕ → ℕ
inside bin [] parent = parent
inside bin (e ∷ es) parent = inside bin es (update parent e bin)

abbrev pub Distinct : List ℕ → Type 0
Distinct [] = Unit
Distinct (e ∷ es) = All (λ x. e ≢ x) es × Distinct es

-- The element is not NULL, linked to nothing and in no bin.
pub record IsLoose (v : View) (e : ℕ) : Type 0 where
  pub some : e ≢ 0
  pub open_end : v.next e ≡ 0
  pub free : IsFree v.next e
  pub alone : v.parent e ≡ 0

-- The pads of each element fit those of the next.
abbrev pub RowFits : Gst → ℕ → List ℕ → Type 0
RowFits G a [] = Unit
RowFits G a (b ∷ es) = Fits G a b × RowFits G b es

module _ (G : Gst) (L : IsDocumented G) where
  pub bin_add_many-view :
      (bin : ℕ) (es : List ℕ) (w : G.World) (v : View)
      → G.view w ≡ v
      → All (λ e. (e ≢ 0) × (v.parent e ≡ 0)) es
      → Distinct es
      → G.view (bin_add_many G bin es w) ≡ record v { parent = inside bin es v.parent }
  unfolding bin_add_many
  bin_add_many-view bin [] w v at_v h d = at_v
  bin_add_many-view bin (e ∷ es) w v at_v ((some, alone), h) (apart, d) =
      let rest =
        bin_add_many-view bin es (G.bin_add bin e w) (record v { parent = update v.parent e bin })
          (bin_add_to G L w v at_v bin e alone)
          (All-map (λ x ((s, p), ne). (s, ground arith)) es (All-zip _ _ es h apart)) d in
      ground arith

  -- Where the whole row has been linked.
  pub link_from_done :
      (a : ℕ) (es : List ℕ) (w : G.World) (v : View)
      → G.view w ≡ v
      → All (λ e. e ≢ 0) es
      → (link_from G a es w).0 ≡ true
      → G.view (link_from G a es w).1 ≡ record v { next = chain a es v.next }
  unfolding link_from
  link_from_done a [] w v at_v h ok = at_v
  link_from_done a (b ∷ es) w v at_v (some, h) ok =
      let linked : (G.link a b w).0 ≡ true = ground (arith, some, ok) in
      let rest =
        link_from_done b es (G.link a b w).1 (record v { next = update v.next a b })
          (link_done G L w v at_v a b linked) h (ground (arith, some, ok)) in
      ground arith

  -- Elements in one bin that are linked to nothing and fit, one after the other, are all linked.
  pub link_from_fits :
      (bin a : ℕ) (es : List ℕ) (w : G.World) (v : View)
      → G.view w ≡ v
      → RowFits G a es
      → v.next a ≡ 0
      → v.parent a ≡ bin
      → All (λ e. (v.next e ≡ 0) × IsFree v.next e × (v.parent e ≡ bin)) es
      → Distinct (a ∷ es)
      → (link_from G a es w).0 ≡ true
  unfolding link_from
  link_from_fits bin a [] w v at_v fits open_a in_bin h d = refl
  link_from_fits bin a (b ∷ es) w v at_v (fit, fits) open_a in_bin ((open_b, free_b, b_in), h)
        ((ne, apart), (apart_b, d)) =
      let (linked, at₁) = link_to G L w v at_v a b fit open_a free_b (in_bin ∙ sym b_in) in
      let rest =
        link_from_fits bin b es (G.link a b w).1 (record v { next = update v.next a b }) at₁ fits
          (ground arith) b_in
          (All-map (λ x ((o, f, p), (ne_a, ne_b)). (ground arith, (λ y e. ground (arith, f y)), p))
            es (All-zip _ _ es h (All-zip _ _ es apart apart_b)))
          (apart_b, d) in
      ground arith

-- What is not linked keeps its links.
pub chain_other :
    (a : ℕ) (es : List ℕ) (next : ℕ → ℕ) (x : ℕ)
    → All (λ e. x ≢ e) (a ∷ es)
    → chain a es next x ≡ next x
chain_other a [] next x h = refl
chain_other a (b ∷ es) next x (ne, h) =
    let rest = chain_other b es (update next a b) x h in ground arith

pub chain-IsFree :
    (a : ℕ) (es : List ℕ) (next : ℕ → ℕ) (x : ℕ)
    → IsFree next x
    → All (λ e. x ≢ e) es
    → IsFree (chain a es next) x
chain-IsFree a [] next x free h = free
chain-IsFree a (b ∷ es) next x free (ne, h) =
    chain-IsFree b es (update next a b) x (λ y e. ground (arith, free y)) h

pub inside_other :
    (bin : ℕ) (es : List ℕ) (parent : ℕ → ℕ) (x : ℕ)
    → All (λ e. x ≢ e) es
    → inside bin es parent x ≡ parent x
inside_other bin [] parent x h = refl
inside_other bin (e ∷ es) parent x (ne, h) =
    let rest = inside_other bin es (update parent e bin) x h in ground arith

pub Distinct-insert :
    (xs ys : List ℕ) (e : ℕ)
    → All (λ x. x ≢ e) (xs ++ ys)
    → Distinct (xs ++ ys)
    → Distinct (xs ++ (e ∷ ys))
Distinct-insert [] ys e h d = (All-map (λ x ne g. ne (sym g)) ys h, d)
Distinct-insert (x ∷ xs) ys e (ne, h) (apart, d) =
    (All-insert _ xs ys ne apart, Distinct-insert xs ys e h d)

-- The elements are loose, and no two are the same.
pub record AreLoose (v : View) (es : List ℕ) : Type 0 where
  pub each : All (IsLoose v) es
  pub distinct : Distinct es

Distinct-remove :
    (xs ys : List ℕ) (e : ℕ)
    → Distinct (xs ++ (e ∷ ys))
    → All (λ x. x ≢ e) (xs ++ ys) × Distinct (xs ++ ys)
Distinct-remove [] ys e (apart, d) = (All-map (λ x ne g. ne (sym g)) ys apart, d)
Distinct-remove (x ∷ xs) ys e (apart, d) =
    let (h, g) = Distinct-remove xs ys e d in
    let (ne, rest) = All-remove _ xs ys apart in ((ne, h), (rest, g))

-- An element is put aside, and back at another place.
pub AreLoose-remove :
    (v : View) (xs ys : List ℕ) (e : ℕ)
    → AreLoose v (xs ++ (e ∷ ys))
    → IsLoose v e × All (λ x. x ≢ e) (xs ++ ys) × AreLoose v (xs ++ ys)
AreLoose-remove v xs ys e l =
    let (loose, each) = All-remove (IsLoose v) xs ys l.each in
    let (apart, distinct) = Distinct-remove xs ys e l.distinct in
    (loose, apart, record { each = each; distinct = distinct })

pub AreLoose-insert :
    (v : View) (xs ys : List ℕ) (e : ℕ)
    → IsLoose v e
    → All (λ x. x ≢ e) (xs ++ ys)
    → AreLoose v (xs ++ ys)
    → AreLoose v (xs ++ (e ∷ ys))
AreLoose-insert v xs ys e loose apart l = record {
  each = All-insert (IsLoose v) xs ys loose l.each;
  distinct = Distinct-insert xs ys e apart l.distinct;
}

-- The first two of a chain.
pub chain_head :
    (b c : ℕ) (es : List ℕ) (next : ℕ → ℕ) → Distinct (b ∷ c ∷ es) → chain b (c ∷ es) next b ≡ c
chain_head b c es next (apart, d) =
    let kept = chain_other c es (update next b c) b apart in ground arith

-- What is linked to an element that nothing in the chain leads to was linked to it before.
pub chain_target :
    (a : ℕ) (es : List ℕ) (next : ℕ → ℕ) (x c : ℕ)
    → All (λ e. c ≢ e) es
    → chain a es next x ≡ c
    → next x ≡ c
chain_target a [] next x c h g = g
chain_target a (b ∷ es) next x c (ne, h) g =
    let rest = chain_target b es (update next a b) x c h g in ground arith

pub chain_only_head :
    (b c : ℕ) (es : List ℕ) (next : ℕ → ℕ) (x : ℕ)
    → Distinct (b ∷ c ∷ es)
    → IsFree next c
    → chain b (c ∷ es) next x ≡ c
    → x ≡ b
chain_only_head b c es next x (_, (apart, _)) free g =
    let before = chain_target c es (update next b c) x c apart g in ground (arith, free x)

pub inside_member :
    (bin : ℕ) (xs ys : List ℕ) (e : ℕ) (parent : ℕ → ℕ)
    → All (λ x. e ≢ x) ys
    → inside bin (xs ++ (e ∷ ys)) parent e ≡ bin
inside_member bin [] ys e parent h = inside_other bin ys (update parent e bin) e h ∙ ground arith
inside_member bin (x ∷ xs) ys e parent h = inside_member bin xs ys e (update parent x bin) h

pub inside_members :
    (bin : ℕ) (es : List ℕ) (parent : ℕ → ℕ)
    → Distinct es
    → All (λ e. inside bin es parent e ≡ bin) es
inside_members bin [] parent d = tt
inside_members bin (e ∷ es) parent (apart, d) =
    (inside_member bin [] es e parent apart, inside_members bin es (update parent e bin) d)
