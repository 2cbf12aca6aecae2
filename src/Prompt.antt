-- ===== src/Prompt.antt =====
-- The messages of the user: `handle_usr_prompt` of src/deepstream_fpfilter_app.c.
pub mod Json
pub mod Handle
pub mod Command
pub mod Message
pub mod Conversation
