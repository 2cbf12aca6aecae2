-- ===== src/Control/Bus.antt =====
-- `bus_call` and `seek_query_drop_prob` of src/deepstream_fpfilter_app.c.
use deepstream_fpfilter.Prelude.{
  ◌≡◌, Bool, true, false, not, ◌&&◌, ◌||◌, List, [], ◌∷◌, if◌then◌else◌, arith,
}
use deepstream_fpfilter.Pipeline.Link.{GstPadProbeReturn, probe_drop, probe_ok}

-- `GST_MESSAGE_TYPE`
pub data GstMessage : Type 0 where
  message_eos message_error message_other : GstMessage

-- The second argument says whether the main loop runs; the result TRUE keeps the watch.
unfoldable pub bus_call : GstMessage → Bool → Bool × Bool
bus_call message_eos running = (true, false)
bus_call message_error running = (true, false)
bus_call message_other running = (true, running)

-- Whether the probe is at an upstream query, and whether the query is `GST_QUERY_SEEKING`.
unfoldable pub seek_query_drop_prob : Bool → Bool → GstPadProbeReturn
seek_query_drop_prob query_upstream seeking =
    if query_upstream then (if seeking then probe_drop else probe_ok) else probe_ok

-- The watch on the bus, with the messages in their order, as long as it is kept.
abbrev watch : List GstMessage → Bool → Bool
watch [] running = running
watch (m ∷ ms) running =
    let (keep, after) = bus_call m running in
    let rest = watch ms after in if keep then rest else after

abbrev is_end : GstMessage → Bool
is_end message_other = false
is_end _ = true

abbrev any_end : List GstMessage → Bool
any_end [] = false
any_end (m ∷ ms) = is_end m || any_end ms

-- The main loop still runs after some messages exactly if it ran before and none of them says the end
-- of the stream or an error.
watch_lem :
    (ms : List GstMessage) (running : Bool) → watch ms running ≡ (running && not (any_end ms))
unfolding bus_call
watch_lem [] running = ground arith
watch_lem (message_eos ∷ ms) running = ground (arith, watch_lem ms false)
watch_lem (message_error ∷ ms) running = ground (arith, watch_lem ms false)
watch_lem (message_other ∷ ms) running = watch_lem ms running
