-- ===== src/Server/Refuse.antt =====
-- `_read_message` where a call of `read` fails.
use mathlib.Core.Path.{subst}
use deepstream_fpfilter.Prelude.{
  ℕ, suc, ◌-◌, ◌<◌, ◌≡◌, refl, ◌∙◌, none, some, List, replicate, arith, write_at, done,
}
use deepstream_fpfilter.Wire.Socket.{Sockets}
use deepstream_fpfilter.Wire.Frame.{len_bytes, len_of_bytes-len_bytes}
use deepstream_fpfilter.Server.Read.{
  read_bytes, read_message, read_bytes-stop, read_bytes-next, read_bytes-fail,
}

all_left : (n : ℕ) → n ≡ n - 0
all_left n = omega arith

module _ (S : Sockets) where
  -- A failure at the first byte ends the loop at once.
  read_bytes_refused :
      (fuel : ℕ) (c d : S.Conn) (read_len : ℕ) (buffer : List ℕ)
      → 0 < read_len
      → read_len < 65536
      → S.read c read_len ≡ (none, d)
      → read_bytes S (suc fuel) c read_len buffer 0 ≡ done (buffer, d)
  read_bytes_refused fuel c d read_len buffer more small call =
      read_bytes-fail S fuel c read_len buffer 0 more d
        (subst (λ k. S.read c k ≡ (none, d)) (all_left read_len) call)
      ∙ read_bytes-stop S fuel d read_len buffer 4294967295 (omega arith)

  -- The two bytes of the length, at once.
  read_len_bytes :
      (fuel : ℕ) (c d : S.Conn) (n : ℕ)
      → S.read c 2 ≡ (some (len_bytes n), d)
      → read_bytes S (suc fuel) c 2 (replicate 2 0) 0 ≡ done (len_bytes n, d)
  unfolding write_at
  read_len_bytes fuel c d n call =
      read_bytes-next S fuel c 2 (replicate 2 0) 0 (omega arith) (len_bytes n) (len_bytes n) d call
        refl (omega arith)
      ∙ read_bytes-stop S fuel d 2 (len_bytes n) 2 (omega arith)

  -- If the length has arrived and the first `read` behind it fails, `_read_message` returns the length
  -- that was announced, and the buffer as it was: the message is what the buffer held before.
  pub read_message_stale :
      (fuel : ℕ) (c d e : S.Conn) (msg : List ℕ) (n : ℕ)
      → 0 < n
      → n < 65536
      → S.read c 2 ≡ (some (len_bytes n), d)
      → S.read d n ≡ (none, e)
      → read_message S (suc fuel) c msg ≡ done (msg, n, e)
  unfolding read_message
  read_message_stale fuel c d e msg n more small call fails =
      rw
        (
          read_len_bytes fuel c d n call,
          len_of_bytes-len_bytes n,
          read_bytes_refused fuel d e n msg more small fails,
        )
        refl
