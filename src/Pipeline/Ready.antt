-- ===== src/Pipeline/Ready.antt =====
-- Elements that are made and not linked yet, while more are made.
use mathlib.Core.Path.{subst}
use deepstream_fpfilter.Prelude.{
  ℕ, ◌≡◌, ◌≢◌, refl, sym, ap, ◌∙◌, List, [], ◌∷◌, ◌++◌, String, All, All-map, All-insert,
}
use deepstream_fpfilter.Pipeline.Gst.{Gst, Value, Callback}
use deepstream_fpfilter.Pipeline.Making.{IsMaking}
use deepstream_fpfilter.Pipeline.Many.{Distinct, Distinct-insert, IsLoose}

module _ {G : Gst} (N : IsMaking G) where
  -- From `w` to `w'` no link, no bin and no state changes, and no element is freed.
  pub record Grows (w w' : G.World) : Type 0 where
    pub keeps : (e : ℕ) → N.Exists w e → N.Exists w' e
    pub same : G.view w' ≡ G.view w

  -- From `w` to `w'` the element `e` is made. It is loose, and of what was there the links and the bins
  -- are the same, and nothing new is linked to it.
  pub record IsMade (w w' : G.World) (e : ℕ) : Type 0 where
    pub keeps : (x : ℕ) → N.Exists w x → N.Exists w' x
    pub new : ¬ N.Exists w e
    pub made : N.Exists w' e
    pub loose : IsLoose (G.view w') e
    pub same_next : (x : ℕ) → N.Exists w x → (G.view w').next x ≡ (G.view w).next x
    pub same_parent : (x : ℕ) → N.Exists w x → (G.view w').parent x ≡ (G.view w).parent x
    pub same_leads : (x c : ℕ) → N.Exists w c → (G.view w').next x ≡ c → (G.view w).next x ≡ c

  -- The elements have been made since `w₀`, they are loose, and no two are the same.
  pub record AreReady (w₀ : G.World) (es : List ℕ) (w : G.World) : Type 0 where
    pub keeps : (e : ℕ) → N.Exists w₀ e → N.Exists w e
    pub each : All (λ e. (¬ N.Exists w₀ e) × N.Exists w e × IsLoose (G.view w) e) es
    pub distinct : Distinct es

  IsMade-IsLoose :
      (w w' : G.World) (e x : ℕ)
      → IsMade w w' e
      → N.Exists w x
      → IsLoose (G.view w) x
      → IsLoose (G.view w') x
  IsMade-IsLoose w w' e x m there l = record {
    some = l.some;
    open_end = m.same_next x there ∙ l.open_end;
    free = λ y h. l.free y (m.same_leads y x there h);
    alone = m.same_parent x there ∙ l.alone;
  }

  pub nothing-AreReady : (w : G.World) → AreReady w [] w
  nothing-AreReady w = record { keeps = λ e h. h; each = tt; distinct = tt }

  pub Grows-then : (w w' w'' : G.World) → Grows w w' → Grows w' w'' → Grows w w''
  Grows-then w w' w'' g h = record {
    keeps = λ e x. h.keeps e (g.keeps e x);
    same = h.same ∙ g.same;
  }

  pub same-Grows : (w : G.World) → Grows w w
  same-Grows w = record { keeps = λ e h. h; same = refl }

  pub AreReady-Grows :
      (w₀ : G.World) (es : List ℕ) (w w' : G.World)
      → AreReady w₀ es w
      → Grows w w'
      → AreReady w₀ es w'
  AreReady-Grows w₀ es w w' r g = record {
    keeps = λ e h. g.keeps e (r.keeps e h);
    each =
        All-map (λ e (n, h, l). (n, g.keeps e h, subst (λ v. IsLoose v e) (sym g.same) l)) es
          r.each;
    distinct = r.distinct;
  }

  pub differ : (w : G.World) (a b : ℕ) → N.Exists w a → ¬ N.Exists w b → a ≢ b
  differ w a b h h' e = h' (subst (N.Exists w) e h)

  -- One more element, at any place among those that are there.
  pub AreReady-IsMade :
      (w₀ : G.World) (xs ys : List ℕ) (w w' : G.World) (e : ℕ)
      → AreReady w₀ (xs ++ ys) w
      → IsMade w w' e
      → AreReady w₀ (xs ++ (e ∷ ys)) w'
  AreReady-IsMade w₀ xs ys w w' e r m = record {
    keeps = λ x h. m.keeps x (r.keeps x h);
    each =
        All-insert _ xs ys ((λ h. m.new (r.keeps e h)), m.made, m.loose)
          (All-map (λ x (n, h, l). (n, m.keeps x h, IsMade-IsLoose w w' e x m h l)) (xs ++ ys)
            r.each);
    distinct =
        Distinct-insert xs ys e (All-map (λ x (n, h, l). differ w x e h m.new) (xs ++ ys) r.each)
          r.distinct;
  }

  -- An element that is new in a world with the same view.
  new-IsMade :
      (w w' : G.World) (e : ℕ) → Grows w w' → e ≢ 0 → ¬ N.Exists w e → N.Exists w' e → IsMade w w' e
  new-IsMade w w' e g some new made =
      let (o, f, a) = rw (sym g.same) at (N.loose w e new some) in
      record {
        keeps = g.keeps;
        new = new;
        made = made;
        loose = record { some = some; open_end = o; free = f; alone = a };
        same_next = λ x h. ap (λ v. v.next x) g.same;
        same_parent = λ x h. ap (λ v. v.parent x) g.same;
        same_leads = λ x c h e. ap (λ v. v.next x) (sym g.same) ∙ e;
      }

  factory_make-Grows : (name : String) (w : G.World) → Grows w (G.factory_make name w).1
  factory_make-Grows name w = record { keeps = N.made_keeps name w; same = N.made-view name w }

  pub factory_make-IsMade :
      (name : String) (w : G.World)
      → (G.factory_make name w).0 ≢ 0
      → IsMade w (G.factory_make name w).1 (G.factory_make name w).0
  factory_make-IsMade name w some =
      let (new, made) = N.made_new name w some in
      new-IsMade w (G.factory_make name w).1 (G.factory_make name w).0 (factory_make-Grows name w)
        some new made

  bin_new-Grows : (w : G.World) → Grows w (G.bin_new w).1
  bin_new-Grows w = record { keeps = N.bin_new_keeps w; same = N.bin_new-view w }

  pub bin_new-IsMade : (w : G.World) → IsMade w (G.bin_new w).1 (G.bin_new w).0
  bin_new-IsMade w =
      let (some, new, made) = N.bin_new-New w in
      new-IsMade w (G.bin_new w).1 (G.bin_new w).0 (bin_new-Grows w) some new made

  pub set-Grows :
      (e : ℕ) (name : String) (value : Value) (w : G.World) → Grows w (G.set e name value w)
  set-Grows e name value w = record {
    keeps = N.set_keeps e name value w;
    same = N.set-view e name value w;
  }

  pub caps-Grows : (caps : String) (w : G.World) → Grows w (G.caps_from_string caps w).1
  caps-Grows caps w = record { keeps = N.caps_keeps caps w; same = N.caps-view caps w }

  pub connect-Grows : (x : ℕ) (f : Callback) (w : G.World) → Grows w (G.connect x f w)
  connect-Grows x f w = record { keeps = N.connect_keeps x f w; same = N.connect-view x f w }

  pub add_ghost_pad-Grows :
      (bin : ℕ) (name : String) (pad : ℕ) (w : G.World) → Grows w (G.add_ghost_pad bin name pad w).1
  add_ghost_pad-Grows bin name pad w = record {
    keeps = N.add_ghost_pad_keeps bin name pad w;
    same = N.add_ghost_pad-view bin name pad w;
  }
