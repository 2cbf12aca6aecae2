-- ===== src/Config/Property.antt =====
-- `get_fpfilter_status_from_cfg_file` and `get_pgie_id_from_cfg_file` of
-- src/deepstream_fpfilter_app.c.
use deepstream_fpfilter.Prelude.{
  ◌≡◌, ◌↔◌, refl, sym, ◌∙◌, Bool, true, false, not, Option, none, some, Option-cases, Bool-cases,
  ◌⊎◌, inl, inr, String, if◌then◌else◌,
}
use deepstream_fpfilter.Prelude.Int.{ℤ, pos, negsuc}
use deepstream_fpfilter.Config.KeyFile.{KeyFiles}

-- What `g_key_file_get_boolean` and `g_key_file_get_integer` return where they set the error.
abbrev boolean_or_false : Option Bool → Bool
boolean_or_false none = false
boolean_or_false (some b) = b

abbrev integer_or_zero : Option ℤ → ℤ
integer_or_zero none = pos 0
integer_or_zero (some n) = n

module _ (K : KeyFiles) where
  -- `is_enabled` is declared behind the first two jumps to `done`, and so has no value of its own
  -- there: `unset` is what the variable happens to hold.
  unfoldable pub get_fpfilter_status_from_cfg_file : Bool → String → Bool
  get_fpfilter_status_from_cfg_file unset cfg_file_path = elim (K.load_from_file cfg_file_path) [
    | none ↦ unset
    | some key_file ↦
        if not (K.has_group key_file "property")
        then unset
        else if K.has_key key_file "property" "enable-fp-filter"
        then boolean_or_false (K.get_boolean key_file "property" "enable-fp-filter")
        else true
  ]

  unfoldable pub get_pgie_id_from_cfg_file : String → ℤ
  get_pgie_id_from_cfg_file cfg_file_path = elim (K.load_from_file cfg_file_path) [
    | none ↦ negsuc 0
    | some key_file ↦
        if not (K.has_group key_file "property")
        then negsuc 0
        else if K.has_key key_file "property" "pgie-unique-id"
        then integer_or_zero (K.get_integer key_file "property" "pgie-unique-id")
        else negsuc 0
  ]

  -- The file can be loaded and has the group.
  abbrev pub HasProperties : String → Type 0
  HasProperties path =
      (key_file : K.File) × (K.load_from_file path ≡ some key_file)
      × (K.has_group key_file "property" ≡ true)

  status_unset :
      (unset : Bool) (path : String)
      → (K.load_from_file path ≡ none)
        ⊎ ((key_file : K.File) × (K.load_from_file path ≡ some key_file)
            × (K.has_group key_file "property" ≡ false))
      → get_fpfilter_status_from_cfg_file unset path ≡ unset
  unfolding get_fpfilter_status_from_cfg_file
  status_unset unset path (inl absent) = rw (get_fpfilter_status_from_cfg_file, absent) refl
  status_unset unset path (inr (f, loaded, bare)) =
      rw (get_fpfilter_status_from_cfg_file, loaded, bare) refl

  status_same :
      (path : String)
      → HasProperties path
      → get_fpfilter_status_from_cfg_file true path ≡ get_fpfilter_status_from_cfg_file false path
  unfolding get_fpfilter_status_from_cfg_file
  status_same path (f, loaded, group) = rw (get_fpfilter_status_from_cfg_file, loaded, group) refl

  -- The status that is read is a function of the file exactly if the file can be loaded and has the
  -- group "property"; otherwise it is whatever the variable held.
  pub get_fpfilter_status_determined :
      (path : String)
      → (get_fpfilter_status_from_cfg_file true path ≡ get_fpfilter_status_from_cfg_file false path)
        ↔ HasProperties path
  get_fpfilter_status_determined path =
      (λ e. readable e (Option-cases (K.load_from_file path)), status_same path)
    where
      differ :
          get_fpfilter_status_from_cfg_file true path ≡ get_fpfilter_status_from_cfg_file false path
          → ((unset : Bool) → get_fpfilter_status_from_cfg_file unset path ≡ unset)
          → HasProperties path
      differ e h = let t : true ≡ false = sym (h true) ∙ e ∙ h false in cc

      readable :
          get_fpfilter_status_from_cfg_file true path ≡ get_fpfilter_status_from_cfg_file false path
          → (K.load_from_file path ≡ none) ⊎ ((f : K.File) × (K.load_from_file path ≡ some f))
          → HasProperties path
      readable e (inl absent) = differ e (λ unset. status_unset unset path (inl absent))
      readable e (inr (f, loaded)) = elim (Bool-cases (K.has_group f "property")) [
        | inl group ↦ (f, loaded, group)
        | inr bare ↦ differ e (λ unset. status_unset unset path (inr (f, loaded, bare)))
      ]
