-- ===== src/Control.antt =====
-- The switches of the application, src/deepstream_fpfilter_app.c: the filter in and out of the
-- pipeline, and the saving of images with its timers.
pub mod MainLoop
pub mod App
pub mod Timers
pub mod Consistent
pub mod Race
pub mod Bus
pub mod Fire
pub mod Settled
pub mod Switches
