-- ===== src/Frames/Meta.antt =====
-- The metadata of DeepStream that the application reads (gstnvdsmeta.h, not part of the repository,
-- by the fields that are read), `NvFpFilterMeta` of include/gstnvfpfilter.h and `FrameInfo` of
-- include/ds_save_frame.h.
use deepstream_fpfilter.Prelude.{ℕ, List}
use deepstream_fpfilter.Prelude.Int.{ℤ}

pub record NvFpFilterMeta : Type 0 where
  pub fp_count : ℕ  -- guint
  pub tp_count : ℕ  -- guint

-- An entry of `frame_user_meta_list`. `user_meta_data` is what the code finds behind the pointer when
-- it reads it as a `NvFpFilterMeta`, whatever the entry's type.
pub record NvDsUserMeta : Type 0 where
  pub meta_type : ℕ
  pub user_meta_data : NvFpFilterMeta

-- The floats are the patterns of their bits.
pub record NvDsObjectMeta : Type 0 where
  pub unique_component_id : ℤ  -- gint
  pub left : ℕ
  pub top : ℕ
  pub width : ℕ
  pub height : ℕ
  pub confidence : ℕ
  pub obj_label : List ℕ

pub record NvDsFrameMeta : Type 0 where
  pub frame_num : ℤ  -- gint
  pub pad_index : ℕ  -- guint
  pub obj_meta_list : List NvDsObjectMeta
  pub frame_user_meta_list : List NvDsUserMeta

pub record FrameInfo : Type 0 where
  pub source : List ℕ  -- the bytes of the text
  pub frame_index : ℕ  -- guint
  pub pad_index : ℕ  -- guint
