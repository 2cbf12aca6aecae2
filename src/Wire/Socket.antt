-- ===== src/Wire/Socket.antt =====
-- Stream sockets, as read(2) and write(2) document them. The kernel is a parameter of the model.
use deepstream_fpfilter.Prelude.{ℕ, ◌<◌, ◌≤◌, ◌≡◌, ◌≢◌, Option, some, List, [], ◌++◌, length, take}

-- `read c n` is `none` where the call returns -1, and else the bytes that it stored, none of them at
-- the end of the stream; `write c bs` is `none` where the call returns -1, and else a count.
pub record Sockets : Type 1 where
  pub Conn : Type 0
  pub read : Conn → ℕ → Option (List ℕ) × Conn
  pub write : Conn → List ℕ → Option ℕ × Conn
  -- the bytes that the peer has sent and this side has not read; those that this side has sent
  pub pending : Conn → List ℕ
  pub sent : Conn → List ℕ

-- A blocking socket without errors, whose peer has sent all it will and has closed its end.
pub record IsReliable (S : Sockets) : Type 0 where
  -- some of the bytes that wait are delivered, in order, and at most as many as asked for
  pub read_some :
      (c : S.Conn) (n : ℕ)
      → 0 < n
      → S.pending c ≢ []
      → (bs : List ℕ) × (d : S.Conn) × (S.read c n ≡ (some bs, d))
        × (0 < length bs)
        × (length bs ≤ n)
        × (S.pending c ≡ bs ++ S.pending d)
  -- at the end of the stream the call returns 0
  pub read_end :
      (c : S.Conn) (n : ℕ)
      → S.pending c ≡ []
      → (d : S.Conn) × (S.read c n ≡ (some [], d)) × (S.pending d ≡ [])
  -- a front of the bytes is taken, and at least one
  pub write_some :
      (c : S.Conn) (bs : List ℕ)
      → bs ≢ []
      → (k : ℕ) × (d : S.Conn) × (S.write c bs ≡ (some k, d))
        × (0 < k)
        × (k ≤ length bs)
        × (S.sent d ≡ S.sent c ++ take k bs)
