-- ===== src/Server/Message.antt =====
-- `_read_message` on a reliable connection: a whole frame, one that is too long, one that is cut off.
use mathlib.Core.List.{append-nil}
use deepstream_fpfilter.Prelude.{
  ℕ, ◌≤◌, ◌<◌, ◌≡◌, refl, sym, ◌∙◌, List, [], ◌++◌, length, drop, replicate, arith, Run, done,
  fault, spent, ◌>>=◌,
}
use deepstream_fpfilter.Wire.Socket.{Sockets, IsReliable}
use deepstream_fpfilter.Wire.Frame.{len_bytes, len_of_bytes-len_bytes, frame}
use deepstream_fpfilter.Server.Read.{read_bytes, read_message}
use deepstream_fpfilter.Server.Deliver.{read_bytes-Delivers}
use deepstream_fpfilter.Server.Starve.{read_bytes_overflows, read_bytes_starves}

module _ (S : Sockets) (R : IsReliable S) where
  -- After the two length bytes what is left is the read of `n` bytes into `msg`.
  after_len :
      (fuel : ℕ) (c : S.Conn) (msg : List ℕ) (n : ℕ) (rest : List ℕ)
      → 2 ≤ fuel
      → S.pending c ≡ len_bytes n ++ rest
      → (d : S.Conn) × (S.pending d ≡ rest)
        × ((result : Run (List ℕ × S.Conn))
            → read_bytes S fuel d n msg 0 ≡ result
            → read_message S fuel c msg ≡ (result >>= λ r. done (r.0, n, r.1)))
  unfolding read_message
  after_len fuel c msg n rest g p =
      let (d, r, q) =
        read_bytes-Delivers S R fuel c [] (replicate 2 0) (len_bytes n) rest 0 2 refl refl
          (omega arith) p (omega arith) g in
      (d, q, λ result e. rw (r, len_of_bytes-len_bytes n, e))

  -- On a reliable connection whose next bytes are the frame of a message that fits in the buffer,
  -- `_read_message` returns with enough rounds, whatever the chunks: the buffer holds the message and
  -- behind it what it held, the result is the message's length, and what follows the frame is left.
  pub read_message-frame :
      (fuel : ℕ) (c : S.Conn) (msg payload rest : List ℕ)
      → S.pending c ≡ frame payload ++ rest
      → length payload ≤ length msg
      → length payload < 65536
      → 2 ≤ fuel
      → length payload ≤ fuel
      → (d : S.Conn) × (read_message S fuel c msg
          ≡ done (payload ++ drop (length payload) msg, length payload, d))
        × (S.pending d ≡ rest)
  read_message-frame fuel c msg payload rest p h small g g' =
      let (c₁, q, k) = after_len fuel c msg (length payload) (payload ++ rest) g p in
      let (d, r, left) =
        read_bytes-Delivers S R fuel c₁ [] msg payload rest 0 (length payload) refl (omega arith)
          (omega arith) q h g' in
      (d, k _ r, left)

  -- A frame that announces and carries more bytes than the buffer holds makes `_read_message` write
  -- outside the buffer, whatever the chunks.
  pub read_message_overflows :
      (fuel : ℕ) (c : S.Conn) (msg payload rest : List ℕ)
      → S.pending c ≡ frame payload ++ rest
      → length msg < length payload
      → length payload < 65536
      → 2 ≤ fuel
      → length payload ≤ fuel
      → read_message S fuel c msg ≡ fault
  read_message_overflows fuel c msg payload rest p h small g g' =
      let (c₁, q, k) = after_len fuel c msg (length payload) (payload ++ rest) g p in
      k fault (
        read_bytes_overflows S R fuel c₁ [] msg payload rest 0 (length payload) refl (omega arith)
          (omega arith) q h g')

  -- If the peer closes before it has sent the bytes that it announced, and those that it has sent
  -- fit into the buffer, no number of rounds from 2 on is enough for `_read_message`: the server
  -- thread never gets out of it.
  pub read_message_starves :
      (fuel : ℕ) (c : S.Conn) (msg part : List ℕ) (n : ℕ)
      → S.pending c ≡ len_bytes n ++ part
      → length part < n
      → n < 65536
      → length part ≤ length msg
      → 2 ≤ fuel
      → read_message S fuel c msg ≡ spent
  read_message_starves fuel c msg part n p short small h g =
      let (c₁, q, k) = after_len fuel c msg n part g p in
      k spent (
        read_bytes_starves S R fuel c₁ [] msg part 0 n refl (omega arith) (omega arith)
          (q ∙ sym (append-nil part)) h)
