-- ===== src/Lib.antt =====
-- The false positive filter application for DeepStream, in C. A video pipeline finds persons and a
-- filter bin marks false positives; frames with many of them are uploaded to a store, and a user
-- changes the running pipeline with prompts in JSON.
--
-- The parts and how they meet. `ds_fpfilter_manager` sends a prompt, two bytes of length and then the
-- text, to the prompt server, a thread of the application, which hands it to `handle_usr_prompt`. The
-- handler enables or disables the filter, which puts the filter bin into the playing pipeline or takes
-- it out by probes on pads, and switches the saving of frames, possibly until a timer. A probe behind
-- the filter calls `save_frames_for_processing` on each batch, which queues frames; the upload thread
-- takes them from the queue and runs a script for each.
--
-- The files, each with the code that it models:
--   Prelude    tests, lists, integers and texts that the parts share; `Run` is code that returns, that
--              accesses memory outside an object (`fault`), or that has used up its rounds (`spent`)
--   Wire       what src/ds_fpfilter_manager.c and src/ds_usr_prompt_handler.c agree on: packets and the
--              sockets, which are a parameter with what read(2) and write(2) document as hypotheses
--   Server     src/ds_usr_prompt_handler.c: `_read_bytes` and `_read_message` are `read_bytes` and
--              `read_message`; `_server_task` is `server_task`, a sequence of passes of its loop, each
--              with the answer of `accept`, and of calls of `stop_usr_prompt_monitor` in between
--   Manager    src/ds_fpfilter_manager.c: `_send_buf_to_ds_app` is `send_buf_to_ds_app`, and `main`
--   Frames     src/deepstream_fpfilter_app.c: `save_frames_for_processing`, `write_kitti_output` and
--              `after_filter_buffer_probe`, with the counts of include/gstnvfpfilter.h; doubles, the sum
--              of floats and the file system are parameters
--   Upload     src/ds_save_frame.c: the upload thread, `stop_save_frame_task` and pushes as steps of one
--              `System`, where a sequence of `Action`s is an interleaving of the threads; to use the
--              queue once `main` has dropped it is a `fault`, and behind the return of `main` no
--              thread runs
--   Pipeline   src/ds_dynamic_link_unlink_element.c over a parameter `Gst`, whose hypotheses are what
--              GStreamer documents of links, bins and states: a link may fail, a bin passes its
--              state on to what is in it, and the removal from a bin may free the element. `Fits` says
--              of two elements that their pads can be linked, and stands wherever the code does not
--              look at the result of a link; the probes that wait on pads are a list
--   Control    src/deepstream_fpfilter_app.c: the globals that prompts change as the record `App`, and
--              `enable_fpfilter`, `disable_fpfilter` and the functions on the saving of images;
--              the timers of GLib's main loop are a parameter; also `bus_call` and `seek_query_drop_prob`;
--              `switches` is a sequence of prompts, and behind each the probes fire (`settle`)
--   Prompt     src/deepstream_fpfilter_app.c, `handle_usr_prompt`, over a parameter `JsonGlib`
--   Config     src/deepstream_fpfilter_app.c: `get_fpfilter_status_from_cfg_file`,
--              `get_pgie_id_from_cfg_file`, `get_absolute_file_path` and `set_tracker_properties`, over
--              key files as a parameter
--   Bins       src/deepstream_fpfilter_app.c: `create_filter_elements_bin`, `create_source_bin` and
--              `create_sink_bin` of each build (Mp4, H264, MultiFile; VideoSink, FileSink), and
--              `qtdemux_new_pad_cb`, which is `link_new_pad`
--   Main       src/deepstream_fpfilter_app.c: `main` up to the pipeline that plays is `start`; the makers
--              of the bins are parameters, which Main/Builds fills for the builds
--   Tests      concrete inputs for the theorems; concrete instances of the parameters are here and in
--              Wire/Pipe, Pipeline/Graph, Pipeline/Store, Frames/Doubles and Control/MainLoop
--
-- Numbers are exact where the source cannot overflow and otherwise wrapped: `u32` is `guint` and `u16`
-- is `guint16`; the count of batches, a `gint`, is a `fault` where it would overflow. A pointer to an
-- element or a pad is a number, and NULL is 0. A message of the protocol is read as on the
-- little-endian machines that the program is built for.
--
-- Bounds and fuel. `read_bytes` and `write_all` take the number of calls that they may make; on a
-- reliable socket each call moves a byte at least, so that the number of bytes is enough, and for the
-- server 4096, the size of its buffer, is always enough for a prompt that fits. Nothing else in the
-- code loops without a bound that its data gives, except the threads, which are modelled step by step.
--
-- Not modelled: printing, but for the prompt, which is read up to a zero byte; a second start of the
-- prompt server while its first thread serves; the reference counts of GStreamer's objects, mutexes
-- other than by the steps that they make whole, and the Python and shell scripts that upload. The end
-- of `main`, behind its loop, is in Upload.
pub mod Prelude
pub mod Wire
pub mod Server
pub mod Manager
pub mod Frames
pub mod Upload
pub mod Pipeline
pub mod Config
pub mod Control
pub mod Bins
pub mod Main
pub mod Prompt
mod Tests
