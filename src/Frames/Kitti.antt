-- ===== src/Frames/Kitti.antt =====
-- `write_kitti_output` of src/deepstream_fpfilter_app.c. The sum of two floats and the file system are
-- parameters; a file is the rows that are printed into it, and how a float is printed is left out.
use mathlib.Core.List.{append-nil, append_assoc}
use deepstream_fpfilter.Prelude.{
  ℕ, ◌-◌, ◌≡◌, sym, Bool, Option, none, some, List, [], ◌∷◌, ◌++◌, map, length, replicate,
  if◌then◌else◌, arith,
}
use deepstream_fpfilter.Prelude.Text.{codes, snprintf}
use deepstream_fpfilter.Prelude.Int.{ℤ, eq_ℤ, gulong_of}
use deepstream_fpfilter.Prelude.Decimal.{decimal}
use deepstream_fpfilter.Frames.Meta.{NvDsObjectMeta, NvDsFrameMeta}

-- "%s 0.0 0 0.0 %f %f %f %f 0.0 0.0 0.0 0.0 0.0 0.0 0.0 %f\n"
pub record Row : Type 0 where
  pub label : List ℕ
  pub left : ℕ
  pub top : ℕ
  pub right : ℕ
  pub bottom : ℕ
  pub confidence : ℕ

-- "%06lu"
abbrev six_digits : ℕ → List ℕ
six_digits n = replicate (6 - length (decimal n)) b'0' ++ decimal n

-- `g_snprintf (bbox_file, sizeof (bbox_file) - 1, "%s/%06lu.txt", ...)`
unfoldable pub bbox_file : List ℕ → NvDsFrameMeta → List ℕ
bbox_file output_path frame_meta =
    snprintf 1023
      (output_path ++ (b'/' ∷ (six_digits (gulong_of frame_meta.frame_num) ++ codes ".txt")))

module _ (add : ℕ → ℕ → ℕ) (fopen_ok : List ℕ → Bool) (pgie_unique_id : ℤ) where
  abbrev pub bbox_row : NvDsObjectMeta → Row
  bbox_row obj = record {
    label = obj.obj_label;
    left = obj.left;
    top = obj.top;
    right = add obj.left obj.width;
    bottom = add obj.top obj.height;
    confidence = obj.confidence;
  }

  -- The loop over the objects of a frame, with what has been printed so far.
  unfoldable pub write_objects : List NvDsObjectMeta → List Row → List Row
  write_objects [] rows = rows
  write_objects (obj ∷ objs) rows =
      let skipped = write_objects objs rows in
      let written = write_objects objs (rows ++ (bbox_row obj ∷ [])) in
      if eq_ℤ obj.unique_component_id pgie_unique_id then written else skipped

  -- The loop over the frames, with the files that have been written so far.
  unfoldable pub write_frames :
      List ℕ → List NvDsFrameMeta → List (List ℕ × List Row) → List (List ℕ × List Row)
  unfolding bbox_file write_objects
  write_frames output_path [] files = files
  write_frames output_path (frame_meta ∷ frames) files =
      let file = bbox_file output_path frame_meta in
      let skipped = write_frames output_path frames files in
      let written =
        write_frames output_path frames
          (files ++ ((file, write_objects frame_meta.obj_meta_list []) ∷ [])) in
      if fopen_ok file then written else skipped

  -- The files in the order in which they are written; an empty path turns the output off.
  unfoldable pub write_kitti_output :
      Option (List ℕ) → List NvDsFrameMeta → List (List ℕ × List Row)
  unfolding write_frames
  write_kitti_output none frame_meta_list = []
  write_kitti_output (some []) frame_meta_list = []
  write_kitti_output (some (c ∷ path)) frame_meta_list = write_frames (c ∷ path) frame_meta_list []

  -- The objects that the primary detector found.
  abbrev detected : List NvDsObjectMeta → List NvDsObjectMeta
  detected [] = []
  detected (obj ∷ objs) =
      if eq_ℤ obj.unique_component_id pgie_unique_id then obj ∷ detected objs else detected objs

  -- The frames whose file can be opened.
  abbrev pub dumpable : List ℕ → List NvDsFrameMeta → List NvDsFrameMeta
  dumpable path [] = []
  dumpable path (f ∷ frames) =
      if fopen_ok (bbox_file path f) then f ∷ dumpable path frames else dumpable path frames

  -- The file of a frame and what belongs into it.
  abbrev pub kitti_file : List ℕ → NvDsFrameMeta → List ℕ × List Row
  kitti_file path f = (bbox_file path f, map bbox_row (detected f.obj_meta_list))

  write_objects_lem :
      (objs : List NvDsObjectMeta) (rows : List Row)
      → write_objects objs rows ≡ rows ++ map bbox_row (detected objs)
  unfolding write_objects
  write_objects_lem [] rows = sym (append-nil rows)
  write_objects_lem (obj ∷ objs) rows = ground (
    arith,
    write_objects_lem objs rows,
    write_objects_lem objs (rows ++ (bbox_row obj ∷ [])),
    append_assoc rows (bbox_row obj ∷ []) (map bbox_row (detected objs)),
  )

  write_frames_lem :
      (path : List ℕ) (frames : List NvDsFrameMeta) (files : List (List ℕ × List Row))
      → write_frames path frames files ≡ files ++ map (kitti_file path) (dumpable path frames)
  unfolding write_frames
  write_frames_lem path [] files = sym (append-nil files)
  write_frames_lem path (f ∷ frames) files = rw (write_objects_lem f.obj_meta_list []) (
      ground (
        arith,
        write_frames_lem path frames files,
        write_frames_lem path frames (files ++ (kitti_file path f ∷ [])),
        append_assoc files (kitti_file path f ∷ []) (map (kitti_file path) (dumpable path frames)),
      ))

  -- With a path that is not empty, the function writes a file for each frame of the batch whose file
  -- can be opened, in their order, and into each file the objects of that frame that the primary
  -- detector found, in their order, with the corners of their boxes; other objects are left out.
  pub write_kitti_output_lem :
      (c : ℕ) (path : List ℕ) (frames : List NvDsFrameMeta)
      → write_kitti_output (some (c ∷ path)) frames
        ≡ map (kitti_file (c ∷ path)) (dumpable (c ∷ path) frames)
  unfolding write_kitti_output
  write_kitti_output_lem c path frames = write_frames_lem (c ∷ path) frames []
