-- ===== src/Server/Starve.antt =====
-- `_read_bytes` where the peer sends more than the buffer holds, and where it stops too early.
use native.Mathlib.Nat.{add-zero}
use deepstream_fpfilter.Prelude.{
  ℕ, zero, suc, ◌+◌, ◌-◌, ◌≤◌, ◌<◌, ◌≡◌, refl, ◌∙◌, inl, inr, some, List, [], ◌∷◌, ◌++◌, length,
  drop, arith, write_at, dec_lt, fault, spent,
}
use deepstream_fpfilter.Wire.Socket.{Sockets, IsReliable}
use deepstream_fpfilter.Wire.Frame.{counts}
use deepstream_fpfilter.Server.Read.{read_bytes, read_bytes-spent, read_bytes-next}
use deepstream_fpfilter.Server.Deliver.{Chunk, chunk, next_turn, fault_turn}

module _ (S : Sockets) (R : IsReliable S) where
  -- A write lands outside the buffer, whatever the chunks.
  pub read_bytes_overflows :
      (fuel : ℕ) (c : S.Conn) (front old bs rest : List ℕ) (len read_len : ℕ)
      → length front ≡ len
      → len + length bs ≡ read_len
      → read_len < 4294967296
      → S.pending c ≡ bs ++ rest
      → length old < length bs
      → length bs ≤ fuel
      → read_bytes S fuel c read_len (front ++ old) len ≡ fault
  read_bytes_overflows zero c front old bs rest len read_len l e small p h g = absurd (omega arith)
  read_bytes_overflows (suc fuel) c front old bs rest len read_len l e small p h g =
      turn (chunk S R c bs rest (read_len - len) p (inl (omega arith)) (omega arith) (omega arith))
        (read_bytes_overflows fuel)
    where
      turn :
          (k : Chunk S R c bs rest (read_len - len))
          → ((c : S.Conn) (front old bs rest : List ℕ) (len read_len : ℕ)
              → length front ≡ len
              → len + length bs ≡ read_len
              → read_len < 4294967296
              → S.pending c ≡ bs ++ rest
              → length old < length bs
              → length bs ≤ fuel
              → read_bytes S fuel c read_len (front ++ old) len ≡ fault)
          → read_bytes S (suc fuel) c read_len (front ++ old) len ≡ fault
      turn k rec = elim (dec_lt (length old) (length k.got)) [
        | yes over ↦
            fault_turn S R fuel c front old bs rest len read_len l (omega arith) small k over
        | no room ↦
            next_turn S R fuel c front old bs rest len read_len l (omega arith) small k
              (omega arith) (omega arith)
            ∙ rec k.conn (front ++ k.got) (drop (length k.got) old) (drop (length k.got) bs) rest
                (len + length k.got) read_len (omega counts) (omega counts) small k.left
                (omega counts) (omega counts)
      ]

  write_nothing : (buffer : List ℕ) (len : ℕ) → write_at buffer len [] ≡ some buffer
  unfolding write_at
  write_nothing buffer len = refl

  -- A peer that closes before the last byte leaves the loop reading for ever.
  pub read_bytes_starves :
      (fuel : ℕ) (c : S.Conn) (front old bs : List ℕ) (len read_len : ℕ)
      → length front ≡ len
      → len + length bs < read_len
      → read_len < 4294967296
      → S.pending c ≡ bs ++ []
      → length bs ≤ length old
      → read_bytes S fuel c read_len (front ++ old) len ≡ spent
  read_bytes_starves zero c front old bs len read_len l e small p h =
      read_bytes-spent S c read_len (front ++ old) len (omega arith)
  read_bytes_starves (suc fuel) c front old [] len read_len l e small p h =
      let (d, call, stays) = R.read_end c (read_len - len) p in
      read_bytes-next S fuel c read_len (front ++ old) len (omega arith) [] (front ++ old) d call
        (write_nothing (front ++ old) len) (omega arith)
      ∙ rw (add-zero) (read_bytes_starves fuel d front old [] len read_len l e small stays h)
  read_bytes_starves (suc fuel) c front old (b ∷ bs) len read_len l e small p h =
      turn (chunk S R c (b ∷ bs) [] (read_len - len) p (inr refl) (omega arith) (omega arith))
        (read_bytes_starves fuel)
    where
      turn :
          (k : Chunk S R c (b ∷ bs) [] (read_len - len))
          → ((c : S.Conn) (front old bs : List ℕ) (len read_len : ℕ)
              → length front ≡ len
              → len + length bs < read_len
              → read_len < 4294967296
              → S.pending c ≡ bs ++ []
              → length bs ≤ length old
              → read_bytes S fuel c read_len (front ++ old) len ≡ spent)
          → read_bytes S (suc fuel) c read_len (front ++ old) len ≡ spent
      turn k rec =
          next_turn S R fuel c front old (b ∷ bs) [] len read_len l (omega arith) small k
            (omega arith) (omega arith)
          ∙ rec k.conn (front ++ k.got) (drop (length k.got) old) (drop (length k.got) (b ∷ bs))
              (len + length k.got) read_len (omega counts) (omega counts) small k.left
              (omega counts)
