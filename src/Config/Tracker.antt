-- ===== src/Config/Tracker.antt =====
-- `set_tracker_properties` of src/deepstream_fpfilter_app.c.
use text.Mathlib.Text.{◌==◌ as str_eq}
use deepstream_fpfilter.Prelude.{
  ℕ, ◌≡◌, ◌≢◌, refl, inl, inr, Bool, true, false, Option, none, some, Option-cases, String, List,
  [], ◌∷◌, ◌++◌, if◌then◌else◌, Run, done, ◌>>=◌, All,
}
use deepstream_fpfilter.Prelude.Int.{ℤ, pos, guint_of}
use deepstream_fpfilter.Pipeline.Gst.{Gst, string, int}
use deepstream_fpfilter.Config.KeyFile.{KeyFiles}
use deepstream_fpfilter.Config.Path.{slash, get_absolute_file_path, get_absolute_file_path_lem}

abbrev pub tracker_config_file : String
tracker_config_file = "config/ds_tracker_config.txt"

module _ (K : KeyFiles) (G : Gst) (key_file : K.File) (nvtracker : ℕ) where
  -- A property from an integer, where `value` is its conversion to the property's type; `false` is
  -- the jump of `CHECK_ERROR`.
  unfoldable pub set_integer : String → String → (ℤ → ℤ) → G.World → Run (Bool × G.World)
  set_integer key property value w = elim (K.get_integer key_file "tracker" key) [
    | none ↦ done (false, w)
    | some n ↦ done (true, G.set nvtracker property (int (value n)) w)
  ]

  -- A property from a path. The path is made absolute before the error is looked at.
  unfoldable pub set_path : String → String → G.World → Run (Bool × G.World)
  set_path key property w = do
    file ← get_absolute_file_path K tracker_config_file (K.get_string key_file "tracker" key)
    elim (K.get_string key_file "tracker" key) [
      | none ↦ done (false, w)
      | some _ ↦ done (true, G.set nvtracker property (string file) w)
    ]

  -- The body of the loop.
  unfoldable pub set_key : String → G.World → Run (Bool × G.World)
  unfolding set_integer set_path
  set_key key w =
      if str_eq key "tracker-width"
      then set_integer "tracker-width" "tracker-width" (λ n. n) w
      else if str_eq key "tracker-height"
      then set_integer "tracker-height" "tracker-height" (λ n. n) w
      else if str_eq key "gpu-id"
      then set_integer "gpu-id" "gpu_id" (λ n. pos (guint_of n)) w
      else if str_eq key "ll-config-file"
      then set_path "ll-config-file" "ll-config-file" w
      else if str_eq key "ll-lib-file"
      then set_path "ll-lib-file" "ll-lib-file" w
      else if str_eq key "enable-batch-process"
      then set_integer "enable-batch-process" "enable_batch_process" (λ n. n) w
      else done (true, w)

  unfoldable pub set_keys : List String → G.World → Run (Bool × G.World)
  unfolding set_key
  set_keys [] w = done (true, w)
  set_keys (key ∷ keys) w =
      set_key key w >>= λ (ok, w'). if ok then set_keys keys w' else done (false, w')

module _ (K : KeyFiles) (G : Gst) where
  unfoldable pub set_tracker_properties : ℕ → G.World → Run (Bool × G.World)
  unfolding set_keys
  set_tracker_properties nvtracker w = elim (K.load_from_file tracker_config_file) [
    | none ↦ done (false, w)
    | some key_file ↦ elim (K.get_keys key_file "tracker") [
      | none ↦ done (false, w)
      | some keys ↦ set_keys K G key_file nvtracker keys w
    ]
  ]

module _ (K : KeyFiles) (key_file : K.File) where
  abbrev is_number : String → Bool
  is_number key = elim (K.get_integer key_file "tracker" key) [ none ↦ false | some n ↦ true ]

  abbrev is_path : String → Bool
  is_path key = elim (K.get_string key_file "tracker" key) [ none ↦ false | some bs ↦ true ]

  -- The value of the key is of the kind that the key asks for; an unknown key may have any value.
  abbrev pub readable : String → Bool
  readable key =
      if str_eq key "tracker-width"
      then is_number "tracker-width"
      else if str_eq key "tracker-height"
      then is_number "tracker-height"
      else if str_eq key "gpu-id"
      then is_number "gpu-id"
      else if str_eq key "ll-config-file"
      then is_path "ll-config-file"
      else if str_eq key "ll-lib-file"
      then is_path "ll-lib-file"
      else if str_eq key "enable-batch-process"
      then is_number "enable-batch-process"
      else true

  abbrev all_readable : List String → Bool
  all_readable [] = true
  all_readable (key ∷ keys) = if readable key then all_readable keys else false

module _ (K : KeyFiles) where
  -- Whether the file is usable: it can be loaded, has the group, and all its keys are readable.
  abbrev pub usable : Option K.File → Bool
  usable none = false
  usable (some f) = elim (K.get_keys f "tracker") [
    | none ↦ false
    | some keys ↦ all_readable K f keys
  ]

-- The run comes back with this result, and some world.
abbrev Gives : {World : Type 0} → Run (Bool × World) → Bool → Type 0
Gives {World} m b = (w : World) × (m ≡ done (b, w))

either :
    {World : Type 0} (b : Bool) (m n : Run (Bool × World)) (x y : Bool)
    → Gives m x
    → Gives n y
    → Gives (if b then m else n) (if b then x else y)
either true m n x y g h = g
either false m n x y g h = h

module _ (K : KeyFiles) (G : Gst) (nvtracker : ℕ) where
  set_integer-Gives :
      (f : K.File) (key property : String) (value : ℤ → ℤ) (w : G.World)
      → Gives (set_integer K G f nvtracker key property value w) (is_number K f key)
  unfolding set_integer
  set_integer-Gives f key property value w = elim (Option-cases (K.get_integer f "tracker" key)) [
    | inl e ↦ (w, rw (set_integer, is_number, e) refl)
    | inr (n, e) ↦ (G.set nvtracker property (int (value n)) w, rw (set_integer, is_number, e) refl)
  ]

  module _ (dir name : List ℕ)
      (real : K.realpath tracker_config_file ≡ some (dir ++ (slash ∷ name)))
      (simple : All (λ c. c ≢ slash) name) where
    absolute :
        (path : Option (List ℕ))
        → (file : Option (List ℕ)) × (get_absolute_file_path K tracker_config_file path ≡ done file)
    unfolding get_absolute_file_path
    absolute none = (K.realpath tracker_config_file, refl)
    absolute (some path) =
        (_, get_absolute_file_path_lem K tracker_config_file dir name path real simple)

    set_path-Gives :
        (f : K.File) (key property : String) (w : G.World)
        → Gives (set_path K G f nvtracker key property w) (is_path K f key)
    unfolding set_path
    set_path-Gives f key property w = elim (Option-cases (K.get_string f "tracker" key)) [
      | inl g ↦ (w, rw (set_path, is_path, g, (absolute none).1) refl)
      | inr (bs, g) ↦ (
        G.set nvtracker property (string (absolute (some bs)).0) w,
        rw (set_path, is_path, g, (absolute (some bs)).1) refl,
      )
    ]

    set_key-Gives :
        (f : K.File) (key : String) (w : G.World)
        → Gives (set_key K G f nvtracker key w) (readable K f key)
    unfolding set_key
    set_key-Gives f key w =
        either (str_eq key "tracker-width") _ _ _ _
          (set_integer-Gives f "tracker-width" "tracker-width" (λ n. n) w)
          (either (str_eq key "tracker-height") _ _ _ _
            (set_integer-Gives f "tracker-height" "tracker-height" (λ n. n) w)
            (either (str_eq key "gpu-id") _ _ _ _
              (set_integer-Gives f "gpu-id" "gpu_id" (λ n. pos (guint_of n)) w)
              (either (str_eq key "ll-config-file") _ _ _ _
                (set_path-Gives f "ll-config-file" "ll-config-file" w)
                (either (str_eq key "ll-lib-file") _ _ _ _
                  (set_path-Gives f "ll-lib-file" "ll-lib-file" w)
                  (either (str_eq key "enable-batch-process") _ _ _ _
                    (set_integer-Gives f "enable-batch-process" "enable_batch_process" (λ n. n) w)
                    (w, refl))))))

    set_keys-Gives :
        (f : K.File) (keys : List String) (w : G.World)
        → Gives (set_keys K G f nvtracker keys w) (all_readable K f keys)
    unfolding set_keys
    set_keys-Gives f [] w = (w, refl)
    set_keys-Gives f (key ∷ keys) w =
        let (w', e) = set_key-Gives f key w in
        rw e (either (readable K f key) _ _ _ _ (set_keys-Gives f keys w') (w', refl))

    -- Where `realpath` gives the configuration file a directory, `set_tracker_properties` returns, and
    -- it returns TRUE exactly if the file can be loaded, has the keys of the tracker's group, and each
    -- known key among them has a value of its kind; an unknown key does no harm.
    pub set_tracker_properties-Gives :
        (w : G.World)
        → (w' : G.World) × (set_tracker_properties K G nvtracker w
            ≡ done (usable K (K.load_from_file tracker_config_file), w'))
    unfolding set_tracker_properties
    set_tracker_properties-Gives w = elim (Option-cases (K.load_from_file tracker_config_file)) [
      | inl e ↦ (w, rw (set_tracker_properties, e) refl)
      | inr (f, e) ↦ elim (Option-cases (K.get_keys f "tracker")) [
        | inl g ↦ (w, rw (set_tracker_properties, e, usable, g) refl)
        | inr (keys, g) ↦
            let (w', r) = set_keys-Gives f keys w in
            (w', rw (set_tracker_properties, e, usable, g) r)
      ]
    ]
