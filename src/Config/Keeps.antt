-- ===== src/Config/Keeps.antt =====
-- `set_tracker_properties` of src/deepstream_fpfilter_app.c touches no link and no bin.
use deepstream_fpfilter.Prelude.{
  ℕ, Bool, true, false, Option, none, some, Option-cases, inl, inr, String, List, [], ◌∷◌,
  if◌then◌else◌, arith, Run, done, fault, spent, ◌>>=◌, Returns,
}
use deepstream_fpfilter.Prelude.Int.{ℤ, pos, guint_of}
use deepstream_fpfilter.Pipeline.Gst.{Gst, string, int}
use deepstream_fpfilter.Pipeline.Making.{IsMaking}
use deepstream_fpfilter.Pipeline.Ready.{Grows, Grows-then, same-Grows, set-Grows}
use deepstream_fpfilter.Config.KeyFile.{KeyFiles}
use deepstream_fpfilter.Config.Path.{get_absolute_file_path}
use deepstream_fpfilter.Config.Tracker.{
  tracker_config_file, set_integer, set_path, set_key, set_keys, set_tracker_properties,
}

module _ (K : KeyFiles) (G : Gst) (N : IsMaking G) (nvtracker : ℕ) where
  -- Where the run comes back, the view is still that of this world, and no element is freed.
  abbrev pub Keeps : G.World → Run (Bool × G.World) → Type 0
  Keeps w m = Returns (λ r. Grows N w r.1) m

  set_integer-Keeps :
      (f : K.File) (key property : String) (value : ℤ → ℤ) (w : G.World)
      → Keeps w (set_integer K G f nvtracker key property value w)
  unfolding set_integer
  set_integer-Keeps f key property value w = elim (Option-cases (K.get_integer f "tracker" key)) [
    | inl e ↦ rw (set_integer, e) (same-Grows N w)
    | inr (n, e) ↦ rw (set_integer, e) (set-Grows N nvtracker property (int (value n)) w)
  ]

  set_found :
      (f : K.File) (key property : String) (file : Run (Option (List ℕ))) (w : G.World)
      → Keeps w (
          file >>= λ file. elim (K.get_string f "tracker" key) [
            | none ↦ done (false, w)
            | some _ ↦ done (true, G.set nvtracker property (string file) w)
          ])
  set_found f key property (done file) w = elim (Option-cases (K.get_string f "tracker" key)) [
    | inl e ↦ rw e (same-Grows N w)
    | inr (bs, e) ↦ rw e (set-Grows N nvtracker property (string file) w)
  ]
  set_found f key property fault w = tt
  set_found f key property spent w = tt

  set_path-Keeps :
      (f : K.File) (key property : String) (w : G.World)
      → Keeps w (set_path K G f nvtracker key property w)
  unfolding set_path
  set_path-Keeps f key property w =
      set_found f key property
        (get_absolute_file_path K tracker_config_file (K.get_string f "tracker" key)) w

  set_key-Keeps :
      (f : K.File) (key : String) (w : G.World) → Keeps w (set_key K G f nvtracker key w)
  unfolding set_key
  set_key-Keeps f key w = ground (
    arith,
    set_integer-Keeps f "tracker-width" "tracker-width" (λ n. n) w,
    set_integer-Keeps f "tracker-height" "tracker-height" (λ n. n) w,
    set_integer-Keeps f "gpu-id" "gpu_id" (λ n. pos (guint_of n)) w,
    set_path-Keeps f "ll-config-file" "ll-config-file" w,
    set_path-Keeps f "ll-lib-file" "ll-lib-file" w,
    set_integer-Keeps f "enable-batch-process" "enable_batch_process" (λ n. n) w,
  )

  next_keys :
      (f : K.File) (keys : List String) (w₀ : G.World)
      → ((w : G.World) → Grows N w₀ w → Keeps w₀ (set_keys K G f nvtracker keys w))
      → (m : Run (Bool × G.World)) → Keeps w₀ m
      → Keeps w₀ (m >>= λ (ok, w). if ok then set_keys K G f nvtracker keys w else done (false, w))
  next_keys f keys w₀ rec (done (true, w)) h = rec w h
  next_keys f keys w₀ rec (done (false, w)) h = h
  next_keys f keys w₀ rec fault h = tt
  next_keys f keys w₀ rec spent h = tt

  after : (w₀ w : G.World) → Grows N w₀ w → (m : Run (Bool × G.World)) → Keeps w m → Keeps w₀ m
  after w₀ w h (done r) g = Grows-then N w₀ w r.1 h g
  after w₀ w h fault g = tt
  after w₀ w h spent g = tt

  set_keys-Keeps :
      (f : K.File) (keys : List String) (w₀ : G.World) (w : G.World)
      → Grows N w₀ w
      → Keeps w₀ (set_keys K G f nvtracker keys w)
  unfolding set_keys
  set_keys-Keeps f [] w₀ w h = h
  set_keys-Keeps f (key ∷ keys) w₀ w h =
      next_keys f keys w₀ (set_keys-Keeps f keys w₀) (set_key K G f nvtracker key w)
        (after w₀ w h (set_key K G f nvtracker key w) (set_key-Keeps f key w))

  -- The properties of the tracker change no link, no bin and no state.
  pub set_tracker_properties-Keeps :
      (w : G.World) → Keeps w (set_tracker_properties K G nvtracker w)
  unfolding set_tracker_properties
  set_tracker_properties-Keeps w = elim (Option-cases (K.load_from_file tracker_config_file)) [
    | inl e ↦ rw (set_tracker_properties, e) (same-Grows N w)
    | inr (f, e) ↦ elim (Option-cases (K.get_keys f "tracker")) [
      | inl g ↦ rw (set_tracker_properties, e, g) (same-Grows N w)
      | inr (keys, g) ↦
          rw (set_tracker_properties, e, g) (set_keys-Keeps f keys w w (same-Grows N w))
    ]
  ]
