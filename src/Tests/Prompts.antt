-- ===== src/Tests/Prompts.antt =====
-- Prompts for src/ds_usr_prompt_handler.c and `handle_usr_prompt` of src/deepstream_fpfilter_app.c.
use deepstream_fpfilter.Prelude.{
  ℕ, ◌+◌, ◌≡◌, refl, ap, inl, true, false, Option, none, some, String, List, [], ◌∷◌, ◌++◌, map,
  drop, arith, Run, Returns, done, ◌>>=◌,
}
use deepstream_fpfilter.Prelude.Int.{ℤ, pos}
use deepstream_fpfilter.Wire.Frame.{frame, packet_buffer}
use deepstream_fpfilter.Wire.Pipe.{Pipe, pipe, pipe-IsReliable}
use deepstream_fpfilter.Server.Monitor.{
  Server, returned, Event, stops, passes, would_block, connected, server_task,
  start_usr_prompt_monitor,
}
use deepstream_fpfilter.Server.Service.{
  Told, quiet, prompt, stop, CarriesAll, start_usr_prompt_monitor-deliver,
}
use deepstream_fpfilter.Pipeline.Graph.{Graph, graph}
use deepstream_fpfilter.Control.MainLoop.{timers}
use deepstream_fpfilter.Control.Consistent.{IsConsistent}
use deepstream_fpfilter.Prompt.Handle.{same_text, handle_usr_prompt}
use deepstream_fpfilter.Prompt.Command.{
  Command, enable_filter, disable_filter, start_saving, start_saving_for, stop_saving, IsFor,
  Requests,
}
use deepstream_fpfilter.Prompt.Message.{
  IsMessage, no_parse, perform_all, handle_usr_prompt-IsMessage, handle_usr_prompt-IsMalformed,
  handle_usr_prompt-IsConsistent,
}
use deepstream_fpfilter.Prompt.Conversation.{monitor-perform_all}
use deepstream_fpfilter.Tests.Switches.{running}
use deepstream_fpfilter.Tests.Letters.{object, root, element, for_filter, element_of, letters}

-- The bin is made at the pointer 4.
abbrev create : Graph → Run (ℕ × Graph)
create w = done (4, w)

-- "save for 500 ms", something for another target, "disable"
abbrev wishes : List (Option Command)
wishes = some (start_saving_for 500) ∷ none ∷ some disable_filter ∷ []

not-IsFor_filter : (action : String) → ¬ IsFor letters (some (element (element_of 63))) action
not-IsFor_filter action f = let e : false ≡ true = ap (λ s. same_text s "fpfilter") f.target in cc

no_request : (c : Command) → ¬ Requests letters (some (element (element_of 63))) c
no_request enable_filter f = not-IsFor_filter "enable" f
no_request disable_filter f = not-IsFor_filter "disable" f
no_request start_saving (f, _) = not-IsFor_filter "save-fp-enable" f
no_request (start_saving_for d) (f, _, _) = not-IsFor_filter "save-fp-enable" f
no_request stop_saving f = not-IsFor_filter "save-fp-disable" f

named_for_filter :
    (action : String) (duration : Option ℤ)
    → IsFor letters (some (element (for_filter action duration))) action
named_for_filter action duration = record {
  has_target = refl;
  target = refl;
  has_action = refl;
  named = refl;
}

abbrev wishes_text : List ℕ
wishes_text = 116 ∷ 63 ∷ 100 ∷ []

wishes-IsMessage : (padding : List ℕ) → IsMessage letters (wishes_text ++ padding) 3 wishes
wishes-IsMessage padding = record {
  root_node = object (root (map element_of wishes_text));
  root_object = root (map element_of wishes_text);
  arr = map element_of wishes_text;
  parses = refl;
  holds_object = refl;
  has_message = refl;
  holds_array = refl;
  counted = refl;
  reads = (
    (named_for_filter "save-fp-enable" (some (pos 500)), refl, refl),
    (no_request, (named_for_filter "disable" none, tt)),
  );
}

handle_usr_prompt-IsMessage_example :
    handle_usr_prompt letters graph timers create (wishes_text ++ (0 ∷ [])) 3 (running [])
    ≡ perform_all graph timers create wishes (running [])
handle_usr_prompt-IsMessage_example =
    handle_usr_prompt-IsMessage letters graph timers create (wishes_text ++ (0 ∷ [])) 3 wishes
      (running []) refl (wishes-IsMessage (0 ∷ []))

handle_usr_prompt-IsMalformed_example :
    handle_usr_prompt letters graph timers create (0 ∷ 0 ∷ []) 0 (running []) ≡ done (running [])
handle_usr_prompt-IsMalformed_example =
    handle_usr_prompt-IsMalformed letters graph timers create (0 ∷ 0 ∷ []) 0 (running []) refl
      (no_parse refl)

running-IsConsistent : IsConsistent (running [])
running-IsConsistent = record { named = refl; on_bin = λ e. cc; off_bin = λ e. refl }

handle_usr_prompt-IsConsistent_example :
    Returns IsConsistent
      (handle_usr_prompt letters graph timers create (101 ∷ 100 ∷ 101 ∷ 0 ∷ []) 3 (running []))
handle_usr_prompt-IsConsistent_example =
    handle_usr_prompt-IsConsistent letters graph timers create (101 ∷ 100 ∷ 101 ∷ 0 ∷ []) 3
      (running []) running-IsConsistent

-- A millisecond without a client, a prompt, a request to stop, and a prompt that comes too late.
abbrev events : List (Event Pipe)
events =
    passes would_block
    ∷ passes (connected (record { inbox = frame wishes_text; outbox = [] }))
    ∷ stops
    ∷ passes (connected (record { inbox = frame wishes_text; outbox = [] }))
    ∷ []

abbrev told : List Told
told = quiet ∷ prompt wishes_text ∷ stop ∷ prompt wishes_text ∷ []

events-CarriesAll : CarriesAll pipe events told
events-CarriesAll = (tt, ((omega arith, [], refl), (tt, ((omega arith, [], refl), tt))))

-- A server that was stopped before.
abbrev stopped_server : {State : Type 0} → State → Server State
stopped_server state = record {
  g_server_port = 0;
  g_stop_server = true;
  stage = returned;
  state = state;
}

abbrev add_len : List ℕ → ℕ → ℕ → Run ℕ
add_len msg len n = done (n + len)

start_usr_prompt_monitor-deliver_example :
    (server_task pipe 4096 add_len events
        (start_usr_prompt_monitor true true true (stopped_server 0))
      >>= λ s'. done s'.state)
    ≡ done 3
start_usr_prompt_monitor-deliver_example =
    start_usr_prompt_monitor-deliver pipe pipe-IsReliable 4096 add_len true true true events told
      (stopped_server 0) (λ e. cc) (λ e. cc) events-CarriesAll (omega arith)

monitor-perform_all_example :
    (server_task pipe 4096
        (handle_usr_prompt letters graph timers create)
        events
        (start_usr_prompt_monitor true true true (stopped_server (running [])))
      >>= λ s'. done s'.state)
    ≡ perform_all graph timers create wishes (running [])
monitor-perform_all_example =
    monitor-perform_all letters graph timers create pipe pipe-IsReliable 4096 events told wishes
      (stopped_server (running [])) (λ e. cc) (λ e. cc) events-CarriesAll
      (omega arith, wishes, [], refl, inl (wishes-IsMessage (drop 3 packet_buffer)), refl)
      (omega arith)
