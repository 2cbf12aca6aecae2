-- ===== src/Server/Read.antt =====
-- `_read_bytes` and `_read_message` of src/ds_usr_prompt_handler.c.
use deepstream_fpfilter.Prelude.{
  ℕ, zero, suc, ◌+◌, ◌-◌, ◌≤◌, ◌<◌, ◌≡◌, true, false, none, some, List, length, replicate, ltb,
  arith, if◌then◌else◌, write_at, Run, done, fault, spent, ◌>>=◌,
}
use deepstream_fpfilter.Wire.Socket.{Sockets}
use deepstream_fpfilter.Wire.Frame.{u32, len_of_bytes}

module _ (S : Sockets) where
  -- The loop of `_read_bytes`, from `len` bytes on. The buffer is the whole array that the pointer
  -- points to. A `read` that returns -1 takes 1 off `len`, modulo 2 ^ 32. Fuel counts the calls.
  unfoldable pub read_bytes : ℕ → S.Conn → ℕ → List ℕ → ℕ → Run (List ℕ × S.Conn)
  read_bytes zero c read_len buffer len = if ltb len read_len then spent else done (buffer, c)
  read_bytes (suc fuel) c read_len buffer len = elim (ltb len read_len) [
    | false ↦ done (buffer, c)
    | true ↦
        let (r, d) = S.read c (read_len - len) in
        elim r [
          | none ↦ read_bytes fuel d read_len buffer (u32 (len + 4294967295))
          | some bs ↦ elim (write_at buffer len bs) [
            | none ↦ fault
            | some buffer' ↦ read_bytes fuel d read_len buffer' (u32 (len + length bs))
          ]
        ]
  ]

  -- Reads the length and then the message, and returns `msg`, the length and the connection.
  unfoldable pub read_message : ℕ → S.Conn → List ℕ → Run (List ℕ × ℕ × S.Conn)
  unfolding read_bytes
  read_message fuel c msg = do
    (len_buff, c₁) ← read_bytes fuel c 2 (replicate 2 0) 0
    let len = len_of_bytes len_buff
    (msg', c₂) ← read_bytes fuel c₁ len msg 0
    done (msg', len, c₂)

  -- The turns of the loop, one equation for each way that a turn can go.
  pub read_bytes-stop :
      (fuel : ℕ) (c : S.Conn) (read_len : ℕ) (buffer : List ℕ) (len : ℕ)
      → read_len ≤ len
      → read_bytes fuel c read_len buffer len ≡ done (buffer, c)
  unfolding read_bytes
  read_bytes-stop zero c read_len buffer len h = ground arith
  read_bytes-stop (suc fuel) c read_len buffer len h = ground arith

  pub read_bytes-spent :
      (c : S.Conn) (read_len : ℕ) (buffer : List ℕ) (len : ℕ)
      → len < read_len
      → read_bytes 0 c read_len buffer len ≡ spent
  unfolding read_bytes
  read_bytes-spent c read_len buffer len h = ground arith

  module _ (fuel : ℕ) (c : S.Conn) (read_len : ℕ) (buffer : List ℕ) (len : ℕ)
      (more : len < read_len) where
    pub read_bytes-next :
        (bs buffer' : List ℕ) (d : S.Conn)
        → S.read c (read_len - len) ≡ (some bs, d)
        → write_at buffer len bs ≡ some buffer'
        → len + length bs < 4294967296
        → read_bytes (suc fuel) c read_len buffer len
          ≡ read_bytes fuel d read_len buffer' (len + length bs)
    unfolding read_bytes
    read_bytes-next bs buffer' d r w small = ground arith

    pub read_bytes-fault :
        (bs : List ℕ) (d : S.Conn)
        → S.read c (read_len - len) ≡ (some bs, d)
        → write_at buffer len bs ≡ none
        → read_bytes (suc fuel) c read_len buffer len ≡ fault
    unfolding read_bytes
    read_bytes-fault bs d r w = ground arith

    -- A call that fails takes a byte off the count, and at the first byte ends the loop.
    pub read_bytes-fail :
        (d : S.Conn)
        → S.read c (read_len - len) ≡ (none, d)
        → read_bytes (suc fuel) c read_len buffer len
          ≡ read_bytes fuel d read_len buffer (u32 (len + 4294967295))
    unfolding read_bytes
    read_bytes-fail d r = ground arith
