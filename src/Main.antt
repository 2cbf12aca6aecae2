-- ===== src/Main.antt =====
-- `main` of src/deepstream_fpfilter_app.c: how the pipeline is put together before it plays.
pub mod Start
pub mod Makers
pub mod Elements
pub mod Layout
pub mod Keeps
pub mod Started
pub mod Switching
pub mod Builds
pub mod FirstEnable
