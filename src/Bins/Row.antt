-- ===== src/Bins/Row.antt =====
-- Elements that are put into a new bin and linked there.
use mathlib.Core.Path.{subst}
use deepstream_fpfilter.Prelude.{
  ℕ, ◌≡◌, ◌≢◌, refl, sym, ap, Bool-cases, inl, inr, true, ◌==◌, ◌∙◌, List, [], ◌∷◌, All, All-map,
  All-zip, arith,
}
use deepstream_fpfilter.Pipeline.Gst.{Gst, View, IsFree, IsDocumented, update}
use deepstream_fpfilter.Pipeline.Views.{link_done, link_refused}
use deepstream_fpfilter.Pipeline.Making.{IsMaking}
use deepstream_fpfilter.Pipeline.Many.{
  bin_add_many, link_from, chain, inside, Distinct, IsLoose, bin_add_many-view, link_from_done,
  link_from_fits, RowFits, inside_member, inside_members, chain_other, chain_target, inside_other,
}
use deepstream_fpfilter.Pipeline.Ready.{Grows, IsMade, AreReady, differ}

-- `next` has changed for the elements only.
pub record IsBetween (es : List ℕ) (old next : ℕ → ℕ) : Type 0 where
  pub spares : (x : ℕ) → All (λ e. x ≢ e) es → next x ≡ old x
  pub leads : (x c : ℕ) → All (λ e. c ≢ e) es → next x ≡ c → old x ≡ c

pub chain-IsBetween : (a : ℕ) (es : List ℕ) (old : ℕ → ℕ) → IsBetween (a ∷ es) old (chain a es old)
chain-IsBetween a es old = record {
  spares = λ x h. chain_other a es old x h;
  leads = λ x c (_, h) g. chain_target a es old x c h g;
}

same-IsBetween : (es : List ℕ) (old : ℕ → ℕ) → IsBetween es old old
same-IsBetween es old = record { spares = λ x h. refl; leads = λ x c h g. g }

-- One link more.
then-IsBetween :
    (a b : ℕ) (es : List ℕ) (old next : ℕ → ℕ)
    → IsBetween (b ∷ es) (update old a b) next
    → IsBetween (a ∷ b ∷ es) old next
then-IsBetween a b es old next h = record {
  spares = λ x (ne, others). let kept = h.spares x others in ground arith;
  leads = λ x c (ne_a, (ne_b, others)) g. let before = h.leads x c (ne_b, others) g in ground arith;
}

outside-IsLoose :
    (v : View) (next : ℕ → ℕ) (bin : ℕ) (es : List ℕ) (x : ℕ)
    → IsBetween es v.next next
    → All (λ e. x ≢ e) es
    → IsLoose v x
    → IsLoose (record v { next = next; parent = inside bin es v.parent }) x
outside-IsLoose v next bin es x b apart l = record {
  some = l.some;
  open_end = b.spares x apart ∙ l.open_end;
  free = λ y g. l.free y (b.leads y x apart g);
  alone = inside_other bin es v.parent x apart ∙ l.alone;
}

module _ {G : Gst} (N : IsMaking G) where
  -- From `w` to `w'` a bin and the elements in it are made, all new and no two the same. The source
  -- pads lead to `next`; no other bin, and no state, has changed, and no element is freed.
  pub record HoldsNew (w w' : G.World) (bin : ℕ) (es : List ℕ) (next : ℕ → ℕ) : Type 0 where
    pub some_bin : bin ≢ 0
    pub keeps : (e : ℕ) → N.Exists w e → N.Exists w' e
    pub new : All (λ e. (¬ N.Exists w e) × N.Exists w' e) (bin ∷ es)
    pub distinct : Distinct (bin ∷ es)
    pub links :
        G.view w' ≡ record (G.view w) { next = next; parent = inside bin es (G.view w).parent }

  -- The same, each element linked to the one behind it.
  abbrev pub HoldsRow : G.World → G.World → ℕ → ℕ → List ℕ → Type 0
  HoldsRow w w' bin a es = HoldsNew w w' bin (a ∷ es) (chain a es (G.view w).next)

  -- The same, linked to one another or not.
  abbrev pub HoldsBetween : G.World → G.World → ℕ → List ℕ → Type 0
  HoldsBetween w w' bin es =
      (next : ℕ → ℕ) × IsBetween es (G.view w).next next × HoldsNew w w' bin es next

  pub HoldsNew-Grows :
      (w w' w'' : G.World) (bin : ℕ) (es : List ℕ) (next : ℕ → ℕ)
      → HoldsNew w w' bin es next
      → Grows N w' w''
      → HoldsNew w w'' bin es next
  HoldsNew-Grows w w' w'' bin es next h g = record {
    some_bin = h.some_bin;
    keeps = λ e x. g.keeps e (h.keeps e x);
    new = All-map (λ e (n, x). (n, g.keeps e x)) (bin ∷ es) h.new;
    distinct = h.distinct;
    links = g.same ∙ h.links;
  }

  -- A bin that holds new elements is itself a new element that is loose.
  pub HoldsNew-IsMade :
      (w w' : G.World) (bin : ℕ) (es : List ℕ) (next : ℕ → ℕ)
      → IsBetween es (G.view w).next next
      → HoldsNew w w' bin es next
      → IsMade N w w' bin
  HoldsNew-IsMade w w' bin es next b h =
      let (bin_new, bin_made) = h.new.0 in
      let (o, f, a) = N.loose w bin bin_new h.some_bin in
      let apart : (x : ℕ) → N.Exists w x → All (λ e. x ≢ e) es =
        λ x there. All-map (λ e (n, _). differ N w x e there n) es h.new.1 in
      record {
        keeps = h.keeps;
        new = bin_new;
        made = bin_made;
        loose =
            subst (λ v. IsLoose v bin) (sym h.links)
              (outside-IsLoose (G.view w) next bin es bin b h.distinct.0
                (record { some = h.some_bin; open_end = o; free = f; alone = a }));
        same_next = λ x there. ap (λ v. v.next x) h.links ∙ b.spares x (apart x there);
        same_parent = λ x there.
            ap (λ v. v.parent x) h.links ∙ inside_other bin es (G.view w).parent x (apart x there);
        same_leads =
            λ x c there g. b.leads x c (apart c there) (ap (λ v. v.next x) (sym h.links) ∙ g);
      }

  pub bin_add_many_keeps :
      (bin : ℕ) (es : List ℕ) (w : G.World) (x : ℕ)
      → N.Exists w x
      → N.Exists (bin_add_many G bin es w) x
  unfolding bin_add_many
  bin_add_many_keeps bin [] w x h = h
  bin_add_many_keeps bin (e ∷ es) w x h =
      let rest = bin_add_many_keeps bin es (G.bin_add bin e w) x (N.bin_add_keeps bin e w x h) in
      ground arith

  pub link_from_keeps :
      (a : ℕ) (es : List ℕ) (w : G.World) (x : ℕ) → N.Exists w x → N.Exists (link_from G a es w).1 x
  unfolding link_from
  link_from_keeps a [] w x h = h
  link_from_keeps a (b ∷ es) w x h =
      let once = N.link_keeps a b w x h in
      let rest = link_from_keeps b es (G.link a b w).1 x once in ground arith

  module _ (L : IsDocumented G) where
    -- The elements that are ready are put into the bin, which is ready too.
    pub add_ready :
        (w w₁ : G.World) (bin : ℕ) (es : List ℕ)
        → AreReady N w (bin ∷ es) w₁
        → G.view w₁ ≡ G.view w
        → HoldsNew w (bin_add_many G bin es w₁) bin es (G.view w).next
    add_ready w w₁ bin es r at₁ = record {
      some_bin = r.each.0.2.some;
      keeps = λ e h. bin_add_many_keeps bin es w₁ e (r.keeps e h);
      new = All-map (λ e (n, x, l). (n, bin_add_many_keeps bin es w₁ e x)) (bin ∷ es) r.each;
      distinct = r.distinct;
      links =
          bin_add_many-view G L bin es w₁ (G.view w) at₁
            (All-map (λ e (n, x, l). (l.some, subst (λ v. v.parent e ≡ 0) at₁ l.alone)) es r.each.1)
            r.distinct.1;
    }

    -- Elements are linked in a row, or some of them are.
    pub link_from-IsBetween :
        (a : ℕ) (es : List ℕ) (w : G.World) (v : View)
        → G.view w ≡ v
        → (next : ℕ → ℕ) × IsBetween (a ∷ es) v.next next
          × (G.view (link_from G a es w).1 ≡ record v { next = next })
    unfolding link_from
    link_from-IsBetween a [] w v at_v = (v.next, same-IsBetween (a ∷ []) v.next, at_v)
    link_from-IsBetween a (b ∷ es) w v at_v = elim (Bool-cases (b == 0)) [
      | inl null ↦ (v.next, same-IsBetween (a ∷ b ∷ es) v.next, rw null at_v)
      | inr some ↦ elim (Bool-cases (G.link a b w).0) [
        | inl linked ↦
            let (next, between, at₂) =
              link_from-IsBetween b es (G.link a b w).1 (record v { next = update v.next a b })
                (link_done G L w v at_v a b linked) in
            (next, then-IsBetween a b es v.next next between, rw (some, linked) at₂)
        | inr refused ↦ (
          v.next,
          same-IsBetween (a ∷ b ∷ es) v.next,
          rw (some, refused) (link_refused G L w v at_v a b refused),
        )
      ]
    ]

    -- The elements of a bin after a change of the links alone.
    pub relinked :
        (w w' : G.World) (bin : ℕ) (es : List ℕ) (next : ℕ → ℕ) (a : ℕ) (row : List ℕ)
        (next' : ℕ → ℕ)
        → HoldsNew w w' bin es next
        → G.view (link_from G a row w').1
          ≡ record (G.view w) { next = next'; parent = inside bin es (G.view w).parent }
        → HoldsNew w (link_from G a row w').1 bin es next'
    relinked w w' bin es next a row next' h links = record {
      some_bin = h.some_bin;
      keeps = λ e x. link_from_keeps a row w' e (h.keeps e x);
      new = All-map (λ e (n, x). (n, link_from_keeps a row w' e x)) (bin ∷ es) h.new;
      distinct = h.distinct;
      links = links;
    }

    -- Elements that are ready are put into the bin and linked in a row, or some of them are.
    pub row_filled-HoldsBetween :
        (w w₁ : G.World) (bin a : ℕ) (es : List ℕ)
        → AreReady N w (bin ∷ a ∷ es) w₁
        → G.view w₁ ≡ G.view w
        → HoldsBetween w (link_from G a es (bin_add_many G bin (a ∷ es) w₁)).1 bin (a ∷ es)
    row_filled-HoldsBetween w w₁ bin a es r at₁ =
        let w₂ = bin_add_many G bin (a ∷ es) w₁ in
        let h = add_ready w w₁ bin (a ∷ es) r at₁ in
        let (next, between, at₂) = link_from-IsBetween a es w₂ _ h.links in
        (next, between, relinked w w₂ bin (a ∷ es) (G.view w).next a es next h at₂)

    -- All of them, where the links succeed.
    pub row_filled :
        (w w₁ : G.World) (bin a : ℕ) (es : List ℕ)
        → AreReady N w (bin ∷ a ∷ es) w₁
        → G.view w₁ ≡ G.view w
        → let r = link_from G a es (bin_add_many G bin (a ∷ es) w₁) in
          r.0 ≡ true → HoldsRow w r.1 bin a es
    row_filled w w₁ bin a es r at₁ ok =
        let w₂ = bin_add_many G bin (a ∷ es) w₁ in
        let h = add_ready w w₁ bin (a ∷ es) r at₁ in
        relinked w w₂ bin (a ∷ es) (G.view w).next a es _ h
          (link_from_done G L a es w₂ _ h.links (All-map (λ e (n, x, l). l.some) es r.each.1.1) ok)

    -- They do where the elements fit.
    pub row_fits :
        (w w₁ : G.World) (bin a : ℕ) (es : List ℕ)
        → AreReady N w (bin ∷ a ∷ es) w₁
        → G.view w₁ ≡ G.view w
        → RowFits G a es
        → (link_from G a es (bin_add_many G bin (a ∷ es) w₁)).0 ≡ true
    row_fits w w₁ bin a es r at₁ fits =
        let h = add_ready w w₁ bin (a ∷ es) r at₁ in
        let (loose_a, loose) = r.each.1 in
        link_from_fits G L bin a es (bin_add_many G bin (a ∷ es) w₁) _ h.links fits
          (subst (λ v. v.next a ≡ 0) at₁ loose_a.2.open_end)
          (inside_member bin [] es a (G.view w).parent r.distinct.1.0)
          (All-map
            (λ e ((n, x, l), p). (
              subst (λ v. v.next e ≡ 0) at₁ l.open_end,
              subst (λ v. IsFree v.next e) at₁ l.free,
              p,
            ))
            es
            (All-zip _ _ es loose
              (inside_members bin es (update (G.view w).parent a bin) r.distinct.1.1)))
          r.distinct.1
