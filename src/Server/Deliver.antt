-- ===== src/Server/Deliver.antt =====
-- What `_read_bytes` and `_read_message` do on a reliable connection, whatever the chunks in which
-- the kernel delivers the bytes.
use mathlib.Core.List.{append_assoc}
use deepstream_fpfilter.Prelude.{
  ℕ, zero, suc, ◌+◌, ◌-◌, ◌≤◌, ◌<◌, ◌≡◌, sym, ap, ◌∙◌, ◌≢◌, ◌⊎◌, inl, inr, some, List, [], ◌∷◌,
  ◌++◌, length, drop, arith, write_at-append, write_at_overflow, append-cut, regroup, length-append,
  done, fault,
}
use deepstream_fpfilter.Wire.Socket.{Sockets, IsReliable}
use deepstream_fpfilter.Wire.Frame.{counts}
use deepstream_fpfilter.Server.Read.{read_bytes, read_bytes-stop, read_bytes-next, read_bytes-fault}

module _ (S : Sockets) (R : IsReliable S) where
  -- A turn of the loop on a connection that still holds bytes: a chunk is a front of what waits.
  pub record Chunk (c : S.Conn) (bs rest : List ℕ) (want : ℕ) : Type 0 where
    pub got : List ℕ
    pub conn : S.Conn
    pub call : S.read c want ≡ (some got, conn)
    pub some_got : 0 < length got
    pub fits : length got ≤ length bs
    pub front : bs ≡ got ++ drop (length got) bs
    pub left : S.pending conn ≡ drop (length got) bs ++ rest

  pub chunk :
      (c : S.Conn) (bs rest : List ℕ) (want : ℕ)
      → S.pending c ≡ bs ++ rest
      → (length bs ≡ want) ⊎ (rest ≡ [])
      → 0 < length bs
      → 0 < want
      → Chunk c bs rest want
  chunk c bs rest want waits e h g =
      let (got, d, call, pos, le, split) = R.read_some c want g some_waits in
      let fits : length got ≤ length bs = fits_of got (S.pending d) le (sym split ∙ waits) e in
      let (front, left) = append-cut got (S.pending d) bs rest (sym split ∙ waits) fits in
      record {
        got = got;
        conn = d;
        call = call;
        some_got = pos;
        fits = fits;
        front = front;
        left = left;
      }
    where
      some_waits : S.pending c ≢ []
      some_waits z = absurd (omega (arith, ap length (sym z ∙ waits), length-append bs rest))

      fits_of :
          (got tail : List ℕ)
          → length got ≤ want
          → got ++ tail ≡ bs ++ rest
          → (length bs ≡ want) ⊎ (rest ≡ [])
          → length got ≤ length bs
      fits_of got tail le split (inl q) = omega arith
      fits_of got tail le split (inr q) =
          omega (arith, ap length split, ap length q, length-append got tail, length-append bs rest)

  -- With `fuel` calls left the `bs` that wait are put behind `front`, and `rest` is left.
  abbrev Delivers : ℕ → Type 0
  Delivers fuel =
      (c : S.Conn) (front old bs rest : List ℕ) (len read_len : ℕ)
      → length front ≡ len
      → len + length bs ≡ read_len
      → read_len < 4294967296
      → S.pending c ≡ bs ++ rest
      → length bs ≤ length old
      → length bs ≤ fuel
      → (d : S.Conn) × (read_bytes S fuel c read_len (front ++ old) len
          ≡ done (front ++ (bs ++ drop (length bs) old), d))
        × (S.pending d ≡ rest)

  module _ (fuel : ℕ) (c : S.Conn) (front old bs rest : List ℕ) (len read_len : ℕ)
      (l : length front ≡ len) (more : len < read_len) (small : read_len < 4294967296)
      (k : Chunk c bs rest (read_len - len)) where
    open k use {got, conn}

    pub next_turn :
        length got ≤ length old
        → len + length got < 4294967296
        → read_bytes S (suc fuel) c read_len (front ++ old) len
          ≡ read_bytes S fuel conn read_len
              ((front ++ got) ++ drop (length got) old)
              (len + length got)
    next_turn h s =
        read_bytes-next S fuel c read_len (front ++ old) len more got
          ((front ++ got) ++ drop (length got) old) conn k.call
          (rw (← l, append_assoc front got (drop (length got) old))
            (write_at-append front old got h))
          s

    pub fault_turn :
        length old < length got → read_bytes S (suc fuel) c read_len (front ++ old) len ≡ fault
    fault_turn h =
        read_bytes-fault S fuel c read_len (front ++ old) len more got conn k.call
          (rw (← l) (write_at_overflow front old got h))

    after_turn :
        len + length bs ≡ read_len
        → length bs ≤ length old
        → length bs ≤ suc fuel
        → Delivers fuel
        → (d : S.Conn) × (read_bytes S (suc fuel) c read_len (front ++ old) len
            ≡ done (front ++ (bs ++ drop (length bs) old), d))
          × (S.pending d ≡ rest)
    after_turn e h g rec =
        let (d, r, q) =
          rec conn (front ++ got) (drop (length got) old) (drop (length got) bs) rest
            (len + length got) read_len (omega counts) (omega counts) small k.left (omega counts)
            (omega counts) in
        (d, next_turn (omega arith) (omega arith) ∙ r ∙ ap (λ buffer. done (buffer, d)) same, q)
      where
        same :
            (front ++ got)
              ++ (drop (length got) bs
                  ++ drop (length (drop (length got) bs)) (drop (length got) old))
            ≡ front ++ (bs ++ drop (length bs) old)
        same =
            regroup front got (drop (length got) bs) old
            ∙ ap (λ all. front ++ (all ++ drop (length all) old)) (sym k.front)

  -- The bytes arrive whole and in order behind those that are in the buffer.
  pub read_bytes-Delivers : (fuel : ℕ) → Delivers fuel
  read_bytes-Delivers fuel c front old [] rest len read_len l e small p h g =
      (c, read_bytes-stop S fuel c read_len (front ++ old) len (omega arith), p)
  read_bytes-Delivers zero c front old (b ∷ bs) rest len read_len l e small p h g =
      absurd (omega arith)
  read_bytes-Delivers (suc fuel) c front old (b ∷ bs) rest len read_len l e small p h g =
      after_turn fuel c front old (b ∷ bs) rest len read_len l (omega arith) small
        (chunk c (b ∷ bs) rest (read_len - len) p (inl (omega arith)) (omega arith) (omega arith)) e
        h g (read_bytes-Delivers fuel)
