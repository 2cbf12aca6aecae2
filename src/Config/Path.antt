-- ===== src/Config/Path.antt =====
-- `get_absolute_file_path` of src/deepstream_fpfilter_app.c. Texts are their bytes; the memory that is
-- freed is not read again and is left out.
use mathlib.Core.List.{append_assoc}
use deepstream_fpfilter.Prelude.{
  ℕ, ◌≡◌, ◌≢◌, refl, Bool, false, Option, none, some, String, List, [], ◌∷◌, ◌++◌, ◌==◌,
  if◌then◌else◌, arith, All, Run, done, fault, spent, ◌>>=◌,
}
use deepstream_fpfilter.Config.KeyFile.{KeyFiles}

-- '/'
abbrev pub slash : ℕ
slash = 47

-- `*(g_strrstr (text, "/") + 1) = '\0'`: the text up to its last slash; without one the pointer is
-- NULL, and the write goes to the address 1.
unfoldable cut_at_delim : List ℕ → Run (List ℕ)
cut_at_delim [] = fault
cut_at_delim (c ∷ text) = elim (cut_at_delim text) [
  | done front ↦ done (c ∷ front)
  | fault ↦ if c == slash then done (c ∷ []) else fault
  | spent ↦ spent
]

-- `file_path && file_path[0] == '/'`
abbrev is_absolute : List ℕ → Bool
is_absolute [] = false
is_absolute (c ∷ text) = c == slash

module _ (K : KeyFiles) where
  unfoldable pub get_absolute_file_path : String → Option (List ℕ) → Run (Option (List ℕ))
  unfolding cut_at_delim
  get_absolute_file_path cfg_file_path none = done (K.realpath cfg_file_path)
  get_absolute_file_path cfg_file_path (some file_path) =
      if is_absolute file_path then done (some file_path) else elim (K.realpath cfg_file_path) [
        | none ↦ done none
        | some abs_cfg_path ↦ (cut_at_delim abs_cfg_path >>= λ dir. done (some (dir ++ file_path)))
      ]

cut_at_delim-none : (name : List ℕ) → All (λ c. c ≢ slash) name → cut_at_delim name ≡ fault
unfolding cut_at_delim
cut_at_delim-none [] h = refl
cut_at_delim-none (c ∷ name) h = ground (arith, cut_at_delim-none name h.1)

cut_at_delim-last :
    (dir name : List ℕ)
    → All (λ c. c ≢ slash) name
    → cut_at_delim (dir ++ (slash ∷ name)) ≡ done (dir ++ (slash ∷ []))
unfolding cut_at_delim
cut_at_delim-last [] name h = rw (cut_at_delim-none name h) refl
cut_at_delim-last (c ∷ dir) name h = rw (cut_at_delim-last dir name h) refl

module _ (K : KeyFiles) where
  -- A path that is not absolute is taken from the directory of the configuration file: where
  -- `realpath` gives a directory, a slash and a name without slashes, the result is the directory, the
  -- slash and the path. An absolute path is the result itself.
  pub get_absolute_file_path_lem :
      (cfg : String) (dir name file_path : List ℕ)
      → K.realpath cfg ≡ some (dir ++ (slash ∷ name))
      → All (λ c. c ≢ slash) name
      → get_absolute_file_path K cfg (some file_path)
        ≡ done (some (if is_absolute file_path then file_path else dir ++ (slash ∷ file_path)))
  unfolding get_absolute_file_path
  get_absolute_file_path_lem cfg dir name file_path real h =
      ground (arith, real, cut_at_delim-last dir name h, append_assoc dir (slash ∷ []) file_path)
