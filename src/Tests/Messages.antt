-- ===== src/Tests/Messages.antt =====
-- A short message through the concrete socket, from src/ds_fpfilter_manager.c to
-- src/ds_usr_prompt_handler.c, and messages that are too long or cut off.
use deepstream_fpfilter.Prelude.{
  ℕ, ◌≡◌, refl, Option, none, some, List, [], ◌∷◌, ◌++◌, drop, replicate, length-replicate, done,
  fault, spent, arith,
}
use deepstream_fpfilter.Wire.Frame.{frame, len_bytes, packet_buffer}
use deepstream_fpfilter.Wire.Socket.{Sockets}
use deepstream_fpfilter.Wire.Pipe.{Pipe, pipe, pipe-IsReliable}
use deepstream_fpfilter.Wire.RoundTrip.{read_message-send_buf_to_ds_app}
use deepstream_fpfilter.Server.Read.{read_message}
use deepstream_fpfilter.Server.Message.{
  read_message-frame, read_message_overflows, read_message_starves,
}
use deepstream_fpfilter.Server.Refuse.{read_message_stale}
use deepstream_fpfilter.Manager.Send.{send_buf_to_ds_app, main}
use deepstream_fpfilter.Manager.Deliver.{send_buf_to_ds_app-frame, main_overflows}

abbrev greeting : List ℕ
greeting = 104 ∷ 101 ∷ 108 ∷ 108 ∷ 111 ∷ []

abbrev small_buffer : List ℕ
small_buffer = 0 ∷ 0 ∷ 0 ∷ []

abbrev large_buffer : List ℕ
large_buffer = 0 ∷ 0 ∷ 0 ∷ 0 ∷ 0 ∷ 0 ∷ 0 ∷ []

abbrev receiving : List ℕ → Pipe
receiving bs = record { inbox = bs; outbox = [] }

read_message-frame_example :
    (d : Pipe) × (read_message pipe 8 (receiving (frame greeting ++ (9 ∷ []))) large_buffer
      ≡ done (greeting ++ (0 ∷ 0 ∷ []), 5, d))
    × (d.inbox ≡ 9 ∷ [])
read_message-frame_example =
    read_message-frame pipe pipe-IsReliable 8 (receiving (frame greeting ++ (9 ∷ []))) large_buffer
      greeting (9 ∷ []) refl (omega arith) (omega arith) (omega arith) (omega arith)

read_message_overflows_example :
    read_message pipe 8 (receiving (frame greeting)) small_buffer ≡ fault
read_message_overflows_example =
    read_message_overflows pipe pipe-IsReliable 8 (receiving (frame greeting)) small_buffer greeting
      [] refl (omega arith) (omega arith) (omega arith) (omega arith)

read_message_starves_example :
    read_message pipe 100 (receiving (len_bytes 6 ++ greeting)) large_buffer ≡ spent
read_message_starves_example =
    read_message_starves pipe pipe-IsReliable 100 (receiving (len_bytes 6 ++ greeting)) large_buffer
      greeting 6 refl (omega arith) (omega arith) (omega arith) (omega arith)

send_buf_to_ds_app-frame_example :
    (d : Pipe) × (send_buf_to_ds_app pipe 8 (some (receiving [])) greeting ≡ done (some d))
    × (d.outbox ≡ frame greeting)
send_buf_to_ds_app-frame_example =
    send_buf_to_ds_app-frame pipe pipe-IsReliable 8 (receiving []) greeting (omega arith)
      (omega arith)

main_overflows_example :
    main pipe 8
      ("manager" ∷ "-m" ∷ "prompt.json" ∷ [])
      (λ _. some (replicate 4095 32))
      (some (receiving []))
    ≡ fault
main_overflows_example =
    main_overflows pipe 8 "manager" "prompt.json" (λ _. some (replicate 4095 32))
      (replicate 4095 32) (receiving []) refl (omega (arith, length-replicate {A = ℕ} 4095 32))

read_message-send_buf_to_ds_app_example :
    (sock' d : Pipe) × (send_buf_to_ds_app pipe 8 (some (receiving [])) greeting
      ≡ done (some sock'))
    × (read_message pipe 8 (receiving sock'.outbox) packet_buffer
        ≡ done (greeting ++ drop 5 packet_buffer, 5, d))
    × (d.inbox ≡ [])
read_message-send_buf_to_ds_app_example =
    read_message-send_buf_to_ds_app pipe pipe-IsReliable 8 (receiving []) greeting receiving
      (λ bs. refl) (omega arith) (omega arith) refl

-- A connection that answers each `read` by the next entry.
abbrev script : Sockets
script = record {
  Conn = List (Option (List ℕ));
  read = λ c n. elim c [ [] ↦ (none, []) | r ∷ rs ↦ (r, rs) ];
  write = λ c bs. (none, c);
  pending = λ c. [];
  sent = λ c. [];
}

read_message_stale_example :
    read_message script 2 (some (len_bytes 5) ∷ none ∷ []) large_buffer ≡ done (large_buffer, 5, [])
read_message_stale_example =
    read_message_stale script 1 (some (len_bytes 5) ∷ none ∷ []) (none ∷ []) [] large_buffer 5
      (omega arith) (omega arith) refl refl
