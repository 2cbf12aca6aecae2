-- ===== src/Frames/Batch.antt =====
-- `after_filter_buffer_probe` of src/deepstream_fpfilter_app.c, for the batches of a stream.
use mathlib.Core.List.{append-nil, append_assoc}
use deepstream_fpfilter.Prelude.{
  ℕ, suc, ◌+◌, ◌<◌, ◌≡◌, refl, sym, ap, ◌∙◌, Bool, true, Option, some, List, map, ltb,
  if◌then◌else◌, Run, done, fault, ◌>>=◌, [], ◌∷◌, ◌++◌, length, arith, All,
}
use deepstream_fpfilter.Prelude.Int.{ℤ}
use deepstream_fpfilter.Wire.Frame.{u32}
use deepstream_fpfilter.Frames.Meta.{NvDsFrameMeta, FrameInfo}
use deepstream_fpfilter.Frames.Doubles.{Doubles, IsRounded}
use deepstream_fpfilter.Frames.Save.{Saved, save_frames_for_processing}
use deepstream_fpfilter.Frames.Selection.{IsLabelled, chosen, save_frames_for_processing_selects}
use deepstream_fpfilter.Frames.Kitti.{
  Row, write_kitti_output, dumpable, kitti_file, write_kitti_output_lem,
}

-- What the streaming thread changes: the files in the order in which they are written, the queue with
-- its count, and the number of batches, a `gint`.
pub record Stream : Type 0 where
  pub files : List (List ℕ × List Row)
  pub saved : Saved
  pub frame_number : ℕ

-- A batch, with what the flag for saving is at each of its frames.
pub record Batch : Type 0 where
  pub frame_meta_list : List NvDsFrameMeta
  pub status : ℕ → Bool

module _ (D : Doubles) (type : ℕ) (source_info : List ℕ) (add : ℕ → ℕ → ℕ)
    (fopen_ok : List ℕ → Bool) (pgie_unique_id : ℤ) (output_path : Option (List ℕ)) where
  -- `frame_number++` overflows at the largest `gint`.
  unfoldable pub after_filter_buffer_probe : Batch → Stream → Run Stream
  after_filter_buffer_probe b s =
      if ltb s.frame_number 2147483647
      then done (record {
        files =
            s.files ++ write_kitti_output add fopen_ok pgie_unique_id output_path b.frame_meta_list;
        saved = save_frames_for_processing D type source_info b.status b.frame_meta_list s.saved;
        frame_number = suc s.frame_number;
      })
      else fault

  abbrev pub after_batches : List Batch → Stream → Run Stream
  after_batches [] s = done s
  after_batches (b ∷ bs) s = after_filter_buffer_probe b s >>= after_batches bs

-- The frames that are to be uploaded, batch by batch.
abbrev all_chosen : ℕ → List ℕ → List Batch → List FrameInfo
all_chosen type source_info [] = []
all_chosen type source_info (b ∷ bs) =
    chosen type source_info b.status 0 b.frame_meta_list ++ all_chosen type source_info bs

module _ (add : ℕ → ℕ → ℕ) (fopen_ok : List ℕ → Bool) (pgie_unique_id : ℤ) (path : List ℕ) where
  -- The files that are to be written, each with the rows of its detected objects, batch by batch.
  abbrev pub all_files : List Batch → List (List ℕ × List Row)
  all_files [] = []
  all_files (b ∷ bs) =
      map (kitti_file add fopen_ok pgie_unique_id path)
        (dumpable add fopen_ok pgie_unique_id path b.frame_meta_list)
      ++ all_files bs

module _ (D : Doubles) (R : IsRounded D) (type : ℕ) (source_info : List ℕ) (add : ℕ → ℕ → ℕ)
    (fopen_ok : List ℕ → Bool) (pgie_unique_id : ℤ) (c : ℕ) (path : List ℕ) where
  u32_small : (n : ℕ) → u32 n < 4294967296
  u32_small n = omega arith

  -- On doubles that round, with a path for the output that is not empty, over a stream of batches whose
  -- frames all carry the filter's entry last and once only, with counts that add up in 32 bits, from a
  -- count of images that fits in 32 bits and as long as the number of batches fits in a `gint`: no
  -- batch overflows; the frames queued are those chosen in each batch, batch by batch and in their
  -- order; for each frame whose file can be opened a file is written with the objects that the
  -- primary detector found in it, batch by batch and in their order; every batch is counted once.
  pub after_batches_lem :
      (bs : List Batch) (s : Stream)
      → All (λ b. All (IsLabelled type) b.frame_meta_list) bs
      → s.saved.fpfilter_image_cnt < 4294967296
      → s.frame_number + length bs < 2147483648
      → (t : Stream) × (after_batches D type source_info add fopen_ok pgie_unique_id
            (some (c ∷ path))
            bs
            s
          ≡ done t)
        × (t.saved.frame_save_queue ≡ s.saved.frame_save_queue ++ all_chosen type source_info bs)
        × (t.files ≡ s.files ++ all_files add fopen_ok pgie_unique_id (c ∷ path) bs)
        × (t.frame_number ≡ s.frame_number + length bs)
  unfolding after_filter_buffer_probe
  after_batches_lem [] s h small room =
      (s, refl, sym (append-nil s.saved.frame_save_queue), sym (append-nil s.files), omega arith)
  after_batches_lem (b ∷ bs) s h small room =
      let e =
        save_frames_for_processing_selects D R type source_info b.status b.frame_meta_list s.saved
          h.0 small in
      let s₁ : Stream = record {
        files =
            s.files
            ++ write_kitti_output add fopen_ok pgie_unique_id (some (c ∷ path)) b.frame_meta_list;
        saved = save_frames_for_processing D type source_info b.status b.frame_meta_list s.saved;
        frame_number = suc s.frame_number;
      } in
      let fits : ltb s.frame_number 2147483647 ≡ true = ground (arith, room) in
      let small₁ : s₁.saved.fpfilter_image_cnt < 4294967296 =
        rw (ap {A = Saved} (λ x. x.fpfilter_image_cnt) e) (u32_small _) in
      let (t, ran, q, f, n) = after_batches_lem bs s₁ h.1 small₁ (omega (arith, room)) in
      let written = write_kitti_output_lem add fopen_ok pgie_unique_id c path b.frame_meta_list in
      (
        t,
        rw (after_filter_buffer_probe, fits) ran,
        q
            ∙ ap (λ xs. xs ++ all_chosen type source_info bs)
                (ap {A = Saved} (λ x. x.frame_save_queue) e)
            ∙ append_assoc s.saved.frame_save_queue
                (chosen type source_info b.status 0 b.frame_meta_list)
                (all_chosen type source_info bs),
        f
            ∙ ap (λ xs. (s.files ++ xs) ++ all_files add fopen_ok pgie_unique_id (c ∷ path) bs)
                written
            ∙ append_assoc s.files _ (all_files add fopen_ok pgie_unique_id (c ∷ path) bs),
        n ∙ omega arith,
      )
