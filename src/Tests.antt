-- ===== src/Tests.antt =====
-- Concrete inputs on which the theorems of the library apply.
mod Messages
mod Uploads
mod Links
mod Switches
mod Letters
mod Prompts
mod Configs
mod Batches
mod Starts
mod Toggles
