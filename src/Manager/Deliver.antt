-- ===== src/Manager/Deliver.antt =====
-- What `_send_buf_to_ds_app` puts on a reliable connection, whatever the counts that `write` returns.
use mathlib.Core.List.{append_assoc, append-nil}
use deepstream_fpfilter.Prelude.{
  ℕ, zero, suc, ◌+◌, ◌-◌, ◌≤◌, ◌<◌, ◌≡◌, refl, sym, ap, ◌∙◌, Option, some, String, List, [], ◌∷◌,
  ◌++◌, length, take, drop, arith, window, take-append-drop, done, fault, ◌>>=◌,
}
use deepstream_fpfilter.Wire.Socket.{Sockets, IsReliable}
use deepstream_fpfilter.Wire.Frame.{
  u16, len_bytes, frame, packet_buffer, length-packet_buffer, counts,
}
use deepstream_fpfilter.Manager.Send.{
  copy, copy-append, copy_overflows, fill_write_buffer, write_all, main, send_buf_to_ds_app,
  write_all-stop, write_all-next,
}

put_len : (n : ℕ) → copy packet_buffer 0 (len_bytes n) ≡ done (len_bytes n ++ drop 2 packet_buffer)
put_len n = copy-append [] packet_buffer (len_bytes n) (omega (arith, length-packet_buffer))

-- A message that fits behind its length is framed at the front of the write buffer.
fill_write_buffer_fits :
    (buffer : List ℕ)
    → length buffer ≤ 4094
    → fill_write_buffer buffer ≡ done (frame buffer ++ drop (length buffer) (drop 2 packet_buffer))
unfolding fill_write_buffer
fill_write_buffer_fits buffer h =
    let e : u16 (length buffer) ≡ length buffer = omega arith in
    rw e (
      ap (λ r. r >>= λ write_buffer. copy write_buffer 2 buffer) (put_len (length buffer))
      ∙ copy-append (len_bytes (length buffer)) (drop 2 packet_buffer) buffer
          (omega (counts, length-packet_buffer)))

-- A longer one is written past the end of the write buffer.
fill_write_buffer_overflows :
    (buffer : List ℕ) → 4094 < length buffer → fill_write_buffer buffer ≡ fault
unfolding fill_write_buffer
fill_write_buffer_overflows buffer h =
    ap (λ r. r >>= λ write_buffer. copy write_buffer 2 buffer) (put_len (u16 (length buffer)))
    ∙ copy_overflows (len_bytes (u16 (length buffer))) (drop 2 packet_buffer) buffer
        (omega (counts, length-packet_buffer))

module _ (S : Sockets) (R : IsReliable S) where
  -- The bytes between `front` and `tail` are sent, and no others.
  write_all_delivers :
      (fuel : ℕ) (sock : S.Conn) (front todo tail : List ℕ) (sent_len write_buffer_len : ℕ)
      → length front ≡ sent_len
      → sent_len + length todo ≡ write_buffer_len
      → length todo ≤ fuel
      → (d : S.Conn) × (write_all S fuel sock (front ++ (todo ++ tail)) write_buffer_len sent_len
          ≡ done d)
        × (S.sent d ≡ S.sent sock ++ todo)
  write_all_delivers fuel sock front [] tail sent_len write_buffer_len l e g =
      let stop : sent_len ≡ write_buffer_len = omega arith in
      (
        sock,
        rw stop (write_all-stop S fuel sock (front ++ tail) write_buffer_len),
        sym (append-nil _),
      )
  write_all_delivers zero sock front (b ∷ todo) tail sent_len write_buffer_len l e g =
      absurd (omega arith)
  write_all_delivers (suc fuel) sock front (b ∷ todo) tail sent_len write_buffer_len l e g =
      turn (R.write_some sock (b ∷ todo) (λ z. cc)) (write_all_delivers fuel)
    where
      all : List ℕ
      all = b ∷ todo

      this : take (write_buffer_len - sent_len) (drop sent_len (front ++ (all ++ tail))) ≡ all
      this =
          let e' : write_buffer_len - sent_len ≡ length all = omega arith in
          rw (e', ← l) (window front all tail)

      same : (k : ℕ) → (front ++ take k all) ++ (drop k all ++ tail) ≡ front ++ (all ++ tail)
      same k =
          append_assoc front (take k all) (drop k all ++ tail)
          ∙ ap (◌++◌ front) (
              sym (append_assoc (take k all) (drop k all) tail)
              ∙ ap (λ xs. xs ++ tail) (take-append-drop k all))

      turn :
          ((k : ℕ) × (d : S.Conn) × (S.write sock all ≡ (some k, d))
            × (0 < k)
            × (k ≤ length all)
            × (S.sent d ≡ S.sent sock ++ take k all))
          → ((sock : S.Conn) (front todo tail : List ℕ) (sent_len write_buffer_len : ℕ)
              → length front ≡ sent_len
              → sent_len + length todo ≡ write_buffer_len
              → length todo ≤ fuel
              → (d : S.Conn) × (write_all S fuel sock
                    (front ++ (todo ++ tail))
                    write_buffer_len
                    sent_len
                  ≡ done d)
                × (S.sent d ≡ S.sent sock ++ todo))
          → (d : S.Conn) × (write_all S
                (suc fuel)
                sock
                (front ++ (all ++ tail))
                write_buffer_len
                sent_len
              ≡ done d)
            × (S.sent d ≡ S.sent sock ++ all)
      turn (k, d, call, pos, le, sent) rec =
          let (d', r, q) =
            rec d (front ++ take k all) (drop k all) tail (sent_len + k) write_buffer_len
              (omega counts) (omega counts) (omega counts) in
          (
            d',
            write_all-next S fuel sock d (front ++ (all ++ tail)) all write_buffer_len sent_len k
                  (omega arith) this call
                ∙ rw (same k) at r,
            q
                ∙ ap (λ xs. xs ++ drop k all) sent
                ∙ append_assoc (S.sent sock) (take k all) (drop k all)
                ∙ ap (◌++◌ (S.sent sock)) (take-append-drop k all),
          )

  -- On a reliable connection `_send_buf_to_ds_app` returns with enough rounds, and has sent exactly
  -- the frame of a message of at most 4094 bytes, whatever the counts that `write` returns.
  pub send_buf_to_ds_app-frame :
      (fuel : ℕ) (sock : S.Conn) (buffer : List ℕ)
      → length buffer ≤ 4094
      → length buffer + 2 ≤ fuel
      → (d : S.Conn) × (send_buf_to_ds_app S fuel (some sock) buffer ≡ done (some d))
        × (S.sent d ≡ S.sent sock ++ frame buffer)
  unfolding send_buf_to_ds_app
  send_buf_to_ds_app-frame fuel sock buffer h g =
      let (d, r, q) =
        write_all_delivers fuel sock [] (frame buffer) (drop (length buffer) (drop 2 packet_buffer))
          0 (2 + length buffer) refl (omega arith) (omega arith) in
      (d, rw (fill_write_buffer_fits buffer h, r), q)

module _ (S : Sockets) where
  -- Whatever the kernel does, a file of 4095 bytes or more makes the manager write past the end of its
  -- write buffer once it is connected: the two length bytes and the 4095 that it reads need 4097.
  pub main_overflows :
      (fuel : ℕ) (name path : String) (open_file : String → Option (List ℕ)) (file : List ℕ)
      (sock : S.Conn)
      → open_file path ≡ some file
      → 4095 ≤ length file
      → main S fuel (name ∷ "-m" ∷ path ∷ []) open_file (some sock) ≡ fault
  unfolding main send_buf_to_ds_app
  main_overflows fuel name path open_file file sock found h =
      rw (found, fill_write_buffer_overflows (take 4095 file) (omega counts))
