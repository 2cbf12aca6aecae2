-- ===== src/Frames.antt =====
-- What the application does with each batch of frames that leaves the filter,
-- src/deepstream_fpfilter_app.c: the metadata that it reads, the frames that it queues for upload.
pub mod Meta
pub mod Doubles
pub mod Save
pub mod Selection
pub mod Kitti
pub mod Batch
