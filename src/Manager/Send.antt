-- ===== src/Manager/Send.antt =====
-- `_send_buf_to_ds_app` and `main` of src/ds_fpfilter_manager.c.
use text.Mathlib.Text.{◌==◌ as str_eq}
use deepstream_fpfilter.Prelude.{
  ℕ, zero, suc, ◌+◌, ◌-◌, ◌≤◌, ◌<◌, ◌≡◌, true, false, Option, none, some, String, List, [], ◌∷◌,
  ◌++◌, length, take, drop, ◌==◌, if◌then◌else◌, arith, write_at, write_at-append,
  write_at_overflow, Run, done, fault, spent, ◌>>=◌,
}
use deepstream_fpfilter.Wire.Socket.{Sockets}
use deepstream_fpfilter.Wire.Frame.{max_packet_len, u16, len_bytes, packet_buffer}

-- `memcpy` into an array.
pub copy : List ℕ → ℕ → List ℕ → Run (List ℕ)
copy buffer i bs = elim (write_at buffer i bs) [ none ↦ fault | some buffer' ↦ done buffer' ]

pub copy-append :
    (front old bs : List ℕ)
    → length bs ≤ length old
    → copy (front ++ old) (length front) bs ≡ done (front ++ (bs ++ drop (length bs) old))
unfolding copy
copy-append front old bs h = rw (write_at-append front old bs h, copy)

pub copy_overflows :
    (front old bs : List ℕ) → length old < length bs → copy (front ++ old) (length front) bs ≡ fault
unfolding copy
copy_overflows front old bs h = rw (write_at_overflow front old bs h, copy)

-- The write buffer once the length and then the message are in it: `buffer_len` is `length buffer`.
unfoldable pub fill_write_buffer : List ℕ → Run (List ℕ)
fill_write_buffer buffer = do
  write_buffer ← copy packet_buffer 0 (len_bytes (u16 (length buffer)))
  copy write_buffer 2 buffer

module _ (S : Sockets) where
  -- The write loop. A `write` that returns -1 takes 1 off `sent_len`: at 0 it goes below the start of
  -- the buffer, from where the next `write` would read. Fuel counts the calls.
  unfoldable pub write_all : ℕ → S.Conn → List ℕ → ℕ → ℕ → Run S.Conn
  write_all zero sock write_buffer write_buffer_len sent_len =
      if sent_len == write_buffer_len then done sock else spent
  write_all (suc fuel) sock write_buffer write_buffer_len sent_len =
      elim (sent_len == write_buffer_len) [
        | true ↦ done sock
        | false ↦
            let (r, sock') =
              S.write sock (take (write_buffer_len - sent_len) (drop sent_len write_buffer)) in
            elim r [
              | some n ↦ write_all fuel sock' write_buffer write_buffer_len (sent_len + n)
              | none ↦ elim sent_len [
                | zero ↦ fault
                | suc sent_len' ↦ write_all fuel sock' write_buffer write_buffer_len sent_len'
              ]
            ]
      ]

  -- `connect` gives a connection, or `none` where `socket` or `connect` fails.
  unfoldable pub send_buf_to_ds_app : ℕ → Option S.Conn → List ℕ → Run (Option S.Conn)
  unfolding fill_write_buffer write_all
  send_buf_to_ds_app fuel none buffer = done none
  send_buf_to_ds_app fuel (some sock) buffer = do
    write_buffer ← fill_write_buffer buffer
    sock' ← write_all fuel sock write_buffer (2 + length buffer) 0
    done (some sock')

  -- `main`: `open_file` gives the bytes of a file, or `none` where `fopen` fails; `fread` takes the
  -- first `MAX_PACKET_LEN - 1` of them. The result is `none` where nothing is sent.
  unfoldable pub main :
      ℕ → List String → (String → Option (List ℕ)) → Option S.Conn → Run (Option S.Conn)
  unfolding send_buf_to_ds_app
  main fuel (name ∷ flag ∷ path ∷ []) open_file sock =
      if str_eq flag "-m"
      then elim (open_file path) [
        | none ↦ done none
        | some file ↦ send_buf_to_ds_app fuel sock (take (max_packet_len - 1) file)
      ]
      else done none
  main fuel argv open_file sock = done none

  pub write_all-stop :
      (fuel : ℕ) (sock : S.Conn) (write_buffer : List ℕ) (n : ℕ)
      → write_all fuel sock write_buffer n n ≡ done sock
  unfolding write_all
  write_all-stop zero sock write_buffer n = ground arith
  write_all-stop (suc fuel) sock write_buffer n = ground arith

  pub write_all-next :
      (fuel : ℕ) (sock sock' : S.Conn) (write_buffer todo : List ℕ)
      (write_buffer_len sent_len n : ℕ)
      → sent_len < write_buffer_len
      → take (write_buffer_len - sent_len) (drop sent_len write_buffer) ≡ todo
      → S.write sock todo ≡ (some n, sock')
      → write_all (suc fuel) sock write_buffer write_buffer_len sent_len
        ≡ write_all fuel sock' write_buffer write_buffer_len (sent_len + n)
  unfolding write_all
  write_all-next fuel sock sock' write_buffer todo write_buffer_len sent_len n more w call =
      ground arith
