-- ===== src/Config.antt =====
-- The configuration files that src/deepstream_fpfilter_app.c reads.
pub mod KeyFile
pub mod Property
pub mod Path
pub mod Tracker
pub mod Keeps
