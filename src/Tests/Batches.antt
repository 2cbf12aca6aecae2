-- ===== src/Tests/Batches.antt =====
-- A stream of batches for `after_filter_buffer_probe` and `write_kitti_output` of
-- src/deepstream_fpfilter_app.c.
use deepstream_fpfilter.Prelude.{ℕ, ◌+◌, ◌≡◌, true, some, List, [], ◌∷◌, arith, done}
use deepstream_fpfilter.Prelude.Int.{pos}
use deepstream_fpfilter.Prelude.Text.{codes}
use deepstream_fpfilter.Frames.Meta.{NvDsObjectMeta, NvDsFrameMeta}
use deepstream_fpfilter.Frames.Doubles.{fractions, fractions-IsRounded}
use deepstream_fpfilter.Frames.Selection.{chosen}
use deepstream_fpfilter.Frames.Kitti.{Row, bbox_file, write_kitti_output, write_kitti_output_lem}
use deepstream_fpfilter.Frames.Batch.{Stream, Batch, after_batches, all_files, after_batches_lem}
use deepstream_fpfilter.Tests.Uploads.{batch, batch-IsLabelled, nothing_saved, image}

abbrev object_of : ℕ → NvDsObjectMeta
object_of detector = record {
  unique_component_id = pos detector;
  left = 10;
  top = 20;
  width = 5;
  height = 6;
  confidence = 1;
  obj_label = codes "person";
}

-- The detector 1 finds the first and the third object.
abbrev frame_of_three : NvDsFrameMeta
frame_of_three = record {
  frame_num = pos 42;
  pad_index = 0;
  obj_meta_list = object_of 1 ∷ object_of 2 ∷ object_of 1 ∷ [];
  frame_user_meta_list = [];
}

abbrev person : Row
person = record {
  label = codes "person";
  left = 10;
  top = 20;
  right = 15;
  bottom = 26;
  confidence = 1;
}

write_kitti_output_lem_example :
    write_kitti_output ◌+◌ (λ _. true) (pos 1) (some (codes "out")) (frame_of_three ∷ [])
    ≡ (bbox_file (codes "out") frame_of_three, person ∷ person ∷ []) ∷ []
write_kitti_output_lem_example =
    write_kitti_output_lem ◌+◌ (λ _. true) (pos 1) b'o' (codes "ut") (frame_of_three ∷ [])

abbrev batches : List Batch
batches =
    record { frame_meta_list = batch; status = λ _. true }
    ∷ record { frame_meta_list = batch; status = λ _. true }
    ∷ []

abbrev new_stream : Stream
new_stream = record { files = []; saved = nothing_saved; frame_number = 0 }

after_batches_lem_example :
    (t : Stream) × (after_batches fractions 7
        (codes "in.mp4")
        ◌+◌
        (λ _. true)
        (pos 1)
        (some (codes "out"))
        batches
        new_stream
      ≡ done t)
    × (t.saved.frame_save_queue ≡ image 11 ∷ image 11 ∷ [])
    × (t.files ≡ all_files ◌+◌ (λ _. true) (pos 1) (codes "out") batches)
    × (t.frame_number ≡ 2)
unfolding chosen
after_batches_lem_example =
    after_batches_lem fractions fractions-IsRounded 7 (codes "in.mp4") ◌+◌ (λ _. true) (pos 1) b'o'
      (codes "ut") batches new_stream (batch-IsLabelled, (batch-IsLabelled, tt)) (omega arith)
      (omega arith)
