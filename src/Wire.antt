-- ===== src/Wire.antt =====
-- What the manager (src/ds_fpfilter_manager.c) and the prompt server (src/ds_usr_prompt_handler.c)
-- agree on: the size of a packet, the two length bytes in front of a message, and the sockets that
-- both use, which the operating system provides.
pub mod Socket
pub mod Frame
pub mod RoundTrip
pub mod Pipe
