-- ===== src/Pipeline.antt =====
-- The GStreamer pipeline, and src/ds_dynamic_link_unlink_element.c, which puts an element into it and
-- takes it out while it plays.
pub mod Gst
pub mod Link
pub mod Views
pub mod Many
pub mod Splice
pub mod Unsplice
pub mod Making
pub mod Ready
pub mod Graph
pub mod Store
