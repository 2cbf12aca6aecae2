-- ===== src/Frames/Save.antt =====
-- `save_frames_for_processing` of src/deepstream_fpfilter_app.c.
use deepstream_fpfilter.Prelude.{
  ℕ, suc, ◌+◌, Bool, Option, none, some, List, [], ◌∷◌, ◌++◌, leb, ◌==◌, if◌then◌else◌,
}
use deepstream_fpfilter.Prelude.Int.{guint_of}
use deepstream_fpfilter.Frames.Meta.{NvFpFilterMeta, NvDsUserMeta, NvDsFrameMeta, FrameInfo}
use deepstream_fpfilter.Frames.Doubles.{Doubles}
use deepstream_fpfilter.Wire.Frame.{u32}

-- The globals that the function changes: the queue to the upload thread, and the count of images.
pub record Saved : Type 0 where
  pub frame_save_queue : List FrameInfo
  pub fpfilter_image_cnt : ℕ  -- guint

-- The walk over `frame_user_meta_list`: `user_meta` is set before the type is tested, and the
-- `continue` is the last statement of the body.
unfoldable pub find_user_meta : ℕ → List NvDsUserMeta → Option NvDsUserMeta → Option NvDsUserMeta
find_user_meta nvfpfilter_user_meta [] user_meta = user_meta
find_user_meta nvfpfilter_user_meta (m ∷ ms) user_meta =
    let next = find_user_meta nvfpfilter_user_meta ms (some m) in
    if m.meta_type == nvfpfilter_user_meta then next else next

unfoldable pub push_frame : List ℕ → NvDsFrameMeta → Saved → Saved
push_frame source_info frame_meta s = record {
  frame_save_queue =
      s.frame_save_queue
      ++ (record {
        source = source_info;
        frame_index = guint_of frame_meta.frame_num;
        pad_index = frame_meta.pad_index;
      }
          ∷ []);
  fpfilter_image_cnt = u32 (s.fpfilter_image_cnt + 1);
}

module _ (D : Doubles) (nvfpfilter_user_meta : ℕ) (source_info : List ℕ) where
  -- The body of the loop behind the test for a null `user_meta`; `save` is what
  -- `get_fpfilter_images_save_status` returns.
  unfoldable pub save_frame : Bool → NvFpFilterMeta → NvDsFrameMeta → Saved → Saved
  unfolding push_frame
  save_frame save fpfilter_meta frame_meta s =
      let total_objects : ℕ = u32 (fpfilter_meta.tp_count + fpfilter_meta.fp_count) in
      let fp_percent = D.div (D.of_guint fpfilter_meta.fp_count) (D.of_guint total_objects) in
      if save
      then if leb total_objects 1
        then s
        else if D.ge fp_percent D.threshold
        then push_frame source_info frame_meta s
        else s
      else s

  -- The loop over the frames of a batch. Other threads may change the flag between two frames:
  -- `status n` is what the `n`-th frame of the batch finds. A frame with no user metadata ends the
  -- loop.
  unfoldable pub save_frames : (ℕ → Bool) → ℕ → List NvDsFrameMeta → Saved → Saved
  unfolding find_user_meta save_frame
  save_frames status n [] s = s
  save_frames status n (frame_meta ∷ frames) s =
      elim (find_user_meta nvfpfilter_user_meta frame_meta.frame_user_meta_list none) [
        | none ↦ s
        | some user_meta ↦
            save_frames status (suc n) frames
              (save_frame (status n) user_meta.user_meta_data frame_meta s)
      ]

  unfoldable pub save_frames_for_processing : (ℕ → Bool) → List NvDsFrameMeta → Saved → Saved
  unfolding save_frames
  save_frames_for_processing status frame_meta_list s = save_frames status 0 frame_meta_list s
