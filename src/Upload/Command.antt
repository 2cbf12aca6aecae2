-- ===== src/Upload/Command.antt =====
-- The command line that `_save_frame_task` hands to `system`.
use deepstream_fpfilter.Prelude.{ℕ, ◌≤◌, ◌<◌, ◌≡◌, List, ◌∷◌, ◌++◌, length, take-all_of_le}
use deepstream_fpfilter.Prelude.Text.{codes, snprintf}
use deepstream_fpfilter.Prelude.Int.{gint_of}
use deepstream_fpfilter.Prelude.Decimal.{signed, length-signed-gint_of}
use deepstream_fpfilter.Frames.Meta.{FrameInfo}
use deepstream_fpfilter.Wire.Frame.{counts}

abbrev pub script : List ℕ
script = codes "./src/save_image.sh"

-- "%s %s %d %d"
pub full_command : FrameInfo → List ℕ
full_command f =
    script
    ++ (b' '
        ∷ (f.source
            ++ (b' ' ∷ (signed (gint_of f.pad_index) ++ (b' ' ∷ signed (gint_of f.frame_index))))))

-- `g_snprintf(cmd, 1024, ...)`
unfoldable pub save_command : FrameInfo → List ℕ
unfolding full_command
save_command f = snprintf 1024 (full_command f)

-- A source of at most 979 bytes leaves room for the rest: the command is not cut off.
pub save_command_whole :
    (f : FrameInfo)
    → f.pad_index < 4294967296
    → f.frame_index < 4294967296
    → length f.source ≤ 979
    → save_command f ≡ full_command f
unfolding save_command full_command
save_command_whole f p q h =
    take-all_of_le 1023 (full_command f)
      (omega (counts, length-signed-gint_of f.pad_index p, length-signed-gint_of f.frame_index q))
