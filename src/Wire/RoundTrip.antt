-- ===== src/Wire/RoundTrip.antt =====
-- The manager's message as the server reads it.
use mathlib.Core.List.{append-nil}
use deepstream_fpfilter.Prelude.{
  ℕ, ◌+◌, ◌≤◌, ◌≡◌, sym, ◌∙◌, some, List, [], ◌++◌, length, drop, done, arith,
}
use deepstream_fpfilter.Wire.Socket.{Sockets, IsReliable}
use deepstream_fpfilter.Wire.Frame.{frame, packet_buffer, length-packet_buffer}
use deepstream_fpfilter.Manager.Send.{send_buf_to_ds_app}
use deepstream_fpfilter.Manager.Deliver.{send_buf_to_ds_app-frame}
use deepstream_fpfilter.Server.Read.{read_message}
use deepstream_fpfilter.Server.Message.{read_message-frame}

module _ (S : Sockets) (R : IsReliable S) where
  -- On reliable connections, where `server bs` is the server's end once the client has sent `bs`: what
  -- the manager sends for a message of at most 4094 bytes the server reads back whole, with its length
  -- and to the end of the stream, both with enough rounds and whatever the chunks.
  pub read_message-send_buf_to_ds_app :
      (fuel : ℕ) (sock : S.Conn) (buffer : List ℕ) (server : List ℕ → S.Conn)
      → ((bs : List ℕ) → S.pending (server bs) ≡ bs)
      → length buffer ≤ 4094
      → length buffer + 2 ≤ fuel
      → S.sent sock ≡ []
      → (sock' d : S.Conn) × (send_buf_to_ds_app S fuel (some sock) buffer ≡ done (some sock'))
        × (read_message S fuel (server (S.sent sock')) packet_buffer
            ≡ done (buffer ++ drop (length buffer) packet_buffer, length buffer, d))
        × (S.pending d ≡ [])
  read_message-send_buf_to_ds_app fuel sock buffer server carries h g fresh =
      let (sock', r, q) = send_buf_to_ds_app-frame S R fuel sock buffer h g in
      let (d, r', q') =
        read_message-frame S R fuel (server (S.sent sock')) packet_buffer buffer []
          (carries (S.sent sock') ∙ q ∙ rw fresh (sym (append-nil (frame buffer))))
          (omega (arith, length-packet_buffer)) (omega arith) (omega arith) (omega arith) in
      (sock', d, r, r', q')
