-- ===== src/Manager.antt =====
-- The command-line client that sends a message to the application, src/ds_fpfilter_manager.c.
pub mod Send
pub mod Deliver
