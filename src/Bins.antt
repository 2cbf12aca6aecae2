-- ===== src/Bins.antt =====
-- The bins that src/deepstream_fpfilter_app.c makes.
pub mod Ghost
pub mod Row
pub mod Prepared
pub mod Filter
pub mod Inside
pub mod Unusable
pub mod Mp4
pub mod H264
pub mod MultiFile
pub mod VideoSink
pub mod FileSink
