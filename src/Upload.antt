-- ===== src/Upload.antt =====
-- The thread that uploads frames, src/ds_save_frame.c, beside the threads that feed and stop it.
pub mod Command
pub mod Worker
pub mod Order
pub mod Stop
