-- ===== src/Server.antt =====
-- The prompt server, src/ds_usr_prompt_handler.c.
pub mod Read
pub mod Deliver
pub mod Starve
pub mod Refuse
pub mod Message
pub mod Monitor
pub mod Service
