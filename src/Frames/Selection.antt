-- ===== src/Frames/Selection.antt =====
-- Which frames `save_frames_for_processing` queues for upload.
use mathlib.Core.List.{append-nil, append_assoc}
use deepstream_fpfilter.Prelude.{
  ℕ, suc, ◌+◌, ◌*◌, ◌<◌, ◌≡◌, refl, sym, ◌∙◌, ◌≢◌, inl, inr, Bool, true, false, ◌&&◌, Option, none,
  some, List, [], ◌∷◌, ◌++◌, leb, ◌==◌, if◌then◌else◌, Option-cases, length, All, arith,
}
use deepstream_fpfilter.Prelude.Int.{guint_of}
use deepstream_fpfilter.Frames.Meta.{NvFpFilterMeta, NvDsUserMeta, NvDsFrameMeta, FrameInfo}
use deepstream_fpfilter.Frames.Doubles.{Doubles, IsRounded}
use deepstream_fpfilter.Frames.Save.{
  Saved, find_user_meta, save_frame, save_frames, save_frames_for_processing, push_frame,
}
use deepstream_fpfilter.Wire.Frame.{u32}

-- The counts that the filter attached to a frame: those of the first entry of its type.
abbrev pub fpfilter_meta : ℕ → List NvDsUserMeta → Option NvFpFilterMeta
fpfilter_meta type [] = none
fpfilter_meta type (m ∷ ms) =
    if m.meta_type == type then some m.user_meta_data else fpfilter_meta type ms

-- More than one object, and at least half of them false positives.
abbrev is_high : Option NvFpFilterMeta → Bool
is_high none = false
is_high (some m) = leb 2 (m.tp_count + m.fp_count) && leb (m.tp_count + m.fp_count) (2 * m.fp_count)

abbrev frame_info : List ℕ → NvDsFrameMeta → FrameInfo
frame_info source frame = record {
  source = source;
  frame_index = guint_of frame.frame_num;
  pad_index = frame.pad_index;
}

-- The frames with many false positives among those that find the flag set, in their order.
unfoldable pub chosen : ℕ → List ℕ → (ℕ → Bool) → ℕ → List NvDsFrameMeta → List FrameInfo
chosen type source status n [] = []
chosen type source status n (f ∷ fs) =
    (if status n && is_high (fpfilter_meta type f.frame_user_meta_list)
      then frame_info source f ∷ []
      else [])
    ++ chosen type source status (suc n) fs

-- The filter's entry is the only one of its type and stands last, and its counts add up in 32 bits.
pub record IsLabelled (type : ℕ) (frame : NvDsFrameMeta) : Type 0 where
  pub others : List NvDsUserMeta
  pub label : NvDsUserMeta
  pub entries : frame.frame_user_meta_list ≡ others ++ (label ∷ [])
  pub typed : label.meta_type ≡ type
  pub only : All (λ m. m.meta_type ≢ type) others
  pub fits : label.user_meta_data.tp_count + label.user_meta_data.fp_count < 4294967296

-- The walk ends with the last entry, whatever its type.
find_user_meta-last :
    (type : ℕ) (ms : List NvDsUserMeta) (m : NvDsUserMeta) (start : Option NvDsUserMeta)
    → find_user_meta type (ms ++ (m ∷ [])) start ≡ some m
unfolding find_user_meta
find_user_meta-last type [] m start = ground arith
find_user_meta-last type (x ∷ ms) m start = ground (arith, find_user_meta-last type ms m (some x))

fpfilter_meta-last :
    (type : ℕ) (ms : List NvDsUserMeta) (m : NvDsUserMeta)
    → All (λ x. x.meta_type ≢ type) ms
    → m.meta_type ≡ type
    → fpfilter_meta type (ms ++ (m ∷ [])) ≡ some m.user_meta_data
fpfilter_meta-last type [] m h e = ground arith
fpfilter_meta-last type (x ∷ ms) m h e = ground (arith, fpfilter_meta-last type ms m h.1)

module _ (D : Doubles) (R : IsRounded D) (type : ℕ) (source : List ℕ) where
  -- One frame with counts `m`: pushed exactly if the flag is set and the counts are high.
  save_frame_lem :
      (save : Bool) (m : NvFpFilterMeta) (frame : NvDsFrameMeta) (s : Saved)
      → m.tp_count + m.fp_count < 4294967296
      → save_frame D type source save m frame s
        ≡ (if save && is_high (some m) then push_frame source frame s else s)
  unfolding save_frame
  save_frame_lem save m frame s h =
      let e : u32 (m.tp_count + m.fp_count) ≡ m.tp_count + m.fp_count = omega arith in
      rw (e, save_frame) (ground (arith, R.div-ge-threshold m.fp_count (m.tp_count + m.fp_count)))

  -- What the walk finds in a labelled frame is the entry that it should find.
  walk_finds :
      (frame : NvDsFrameMeta) (l : IsLabelled type frame)
      → find_user_meta type frame.frame_user_meta_list none ≡ some l.label
  walk_finds frame l = rw l.entries (find_user_meta-last type l.others l.label none)

  label_found :
      (frame : NvDsFrameMeta) (l : IsLabelled type frame)
      → fpfilter_meta type frame.frame_user_meta_list ≡ some l.label.user_meta_data
  label_found frame l = rw l.entries (fpfilter_meta-last type l.others l.label l.only l.typed)

  -- The state after the frames `fs` have been pushed.
  abbrev pushed : List FrameInfo → Saved → Saved
  pushed fs s = record {
    frame_save_queue = s.frame_save_queue ++ fs;
    fpfilter_image_cnt = u32 (s.fpfilter_image_cnt + length fs);
  }

  pushed_nothing : (s : Saved) → s.fpfilter_image_cnt < 4294967296 → pushed [] s ≡ s
  pushed_nothing s h = ground (arith, append-nil s.frame_save_queue)

  pushed_next :
      (b : Bool) (f : NvDsFrameMeta) (rest : List FrameInfo) (s : Saved)
      → pushed rest (if b then push_frame source f s else s)
        ≡ pushed ((if b then frame_info source f ∷ [] else []) ++ rest) s
  unfolding push_frame
  pushed_next true f rest s =
      ground (arith, append_assoc s.frame_save_queue (frame_info source f ∷ []) rest)
  pushed_next false f rest s = refl

  count_small :
      (b : Bool) (f : NvDsFrameMeta) (s : Saved)
      → s.fpfilter_image_cnt < 4294967296
      → (if b then push_frame source f s else s).fpfilter_image_cnt < 4294967296
  unfolding push_frame
  count_small true f s h = omega arith
  count_small false f s h = h

  save_frames_selects_from :
      (status : ℕ → Bool) (n : ℕ) (frames : List NvDsFrameMeta) (s : Saved)
      → All (IsLabelled type) frames
      → s.fpfilter_image_cnt < 4294967296
      → save_frames D type source status n frames s ≡ pushed (chosen type source status n frames) s
  unfolding save_frames chosen
  save_frames_selects_from status n [] s h small = sym (pushed_nothing s small)
  save_frames_selects_from status n (f ∷ frames) s h small =
      let m : NvFpFilterMeta = h.0.label.user_meta_data in
      let b : Bool = status n && is_high (some m) in
      rw
        (walk_finds f h.0, save_frames, save_frame_lem (status n) m f s h.0.fits, label_found f h.0)
        (save_frames_selects_from status (suc n) frames (if b then push_frame source f s else s) h.1
            (count_small b f s small)
          ∙ pushed_next b f (chosen type source status (suc n) frames) s)

  -- On doubles that round, in a batch whose frames all carry the filter's entry as their last user
  -- metadata and once only, with counts that add up in 32 bits, and from a count of images that
  -- fits in 32 bits, the function queues exactly the frames that find the flag set and have more
  -- than one object of which at least half are false positives, in their order and behind what was
  -- queued, and counts them modulo 2 ^ 32. `status n` is the flag at the `n`-th frame.
  pub save_frames_for_processing_selects :
      (status : ℕ → Bool) (frames : List NvDsFrameMeta) (s : Saved)
      → All (IsLabelled type) frames
      → s.fpfilter_image_cnt < 4294967296
      → save_frames_for_processing D type source status frames s
        ≡ pushed (chosen type source status 0 frames) s
  unfolding save_frames_for_processing
  save_frames_for_processing_selects status frames s h small =
      save_frames_selects_from status 0 frames s h small

module _ (D : Doubles) (type : ℕ) (source : List ℕ) where
  save_frames_stop :
      (status : ℕ → Bool) (n : ℕ) (before : List NvDsFrameMeta) (bare : NvDsFrameMeta)
      (after : List NvDsFrameMeta) (s : Saved)
      → bare.frame_user_meta_list ≡ []
      → save_frames D type source status n (before ++ (bare ∷ after)) s
        ≡ save_frames D type source status n before s
  unfolding save_frames
  save_frames_stop status n [] bare after s e = rw (e, find_user_meta)
  save_frames_stop status n (f ∷ before) bare after s e =
      elim (Option-cases (find_user_meta type f.frame_user_meta_list none)) [
        | inl bare' ↦ rw (bare', save_frames)
        | inr (m, found) ↦
            rw (found, save_frames)
              (save_frames_stop status (suc n) before bare after
                (save_frame D type source (status n) m.user_meta_data f s) e)
      ]

  -- A frame without user metadata ends the walk over the batch: what is done is what is done for the
  -- frames before it, whatever the frames behind it carry.
  pub save_frames_for_processing_stops :
      (status : ℕ → Bool) (before : List NvDsFrameMeta) (bare : NvDsFrameMeta)
      (after : List NvDsFrameMeta) (s : Saved)
      → bare.frame_user_meta_list ≡ []
      → save_frames_for_processing D type source status (before ++ (bare ∷ after)) s
        ≡ save_frames_for_processing D type source status before s
  unfolding save_frames_for_processing
  save_frames_for_processing_stops status before bare after s e =
      save_frames_stop status 0 before bare after s e

-- The type of an entry is tested and then forgotten: of two frames that differ only in an entry in
-- front of the last one, the same are queued, also where one of those entries is the filter's and
-- the last is not.
pub save_frames_for_processing_misreads :
    (D : Doubles) (type : ℕ) (source : List ℕ) (status : ℕ → Bool) (frame : NvDsFrameMeta)
    (others others' : List NvDsUserMeta) (last : NvDsUserMeta) (s : Saved)
    → save_frames_for_processing D type source status
        (record frame { frame_user_meta_list = others ++ (last ∷ []) } ∷ [])
        s
      ≡ save_frames_for_processing D type source status
          (record frame { frame_user_meta_list = others' ++ (last ∷ []) } ∷ [])
          s
unfolding save_frames_for_processing save_frame push_frame
save_frames_for_processing_misreads D type source status frame others others' last s = rw (
  find_user_meta-last type others last none,
  save_frames,
  find_user_meta-last type others' last none,
  save_frames,
)
