-- ===== src/Wire/Pipe.antt =====
-- A concrete socket: two queues of bytes, of which a call moves three at most. It meets the
-- assumptions on sockets, so that the theorems about them can be applied.
use deepstream_fpfilter.Prelude.{
  ℕ, ◌<◌, ◌≤◌, refl, sym, ◌∙◌, ap, ◌≢◌, some, List, [], ◌∷◌, ◌++◌, length, take, drop, arith, leb,
  if◌then◌else◌, take-append-drop, take-nil, drop-nil,
}
use deepstream_fpfilter.Wire.Socket.{Sockets, IsReliable}
use deepstream_fpfilter.Wire.Frame.{counts}

pub record Pipe : Type 0 where
  pub inbox : List ℕ
  pub outbox : List ℕ

abbrev three : ℕ → ℕ
three n = if leb 3 n then 3 else n

abbrev pub pipe : Sockets
pipe = record {
  Conn = Pipe;
  read = λ c n. (some (take (three n) c.inbox), record c { inbox = drop (three n) c.inbox });
  write = λ c bs.
      (some (three (length bs)), record c { outbox = c.outbox ++ take (three (length bs)) bs });
  pending = λ c. c.inbox;
  sent = λ c. c.outbox;
}

length_pos : (xs : List ℕ) → xs ≢ [] → 0 < length xs
length_pos [] h = absurd (h refl)
length_pos (x ∷ xs) h = omega arith

three_pos : (n : ℕ) → 0 < n → 0 < three n
three_pos n h = ground arith

three_le : (n : ℕ) → three n ≤ n
three_le n = ground arith

read_pos : (n : ℕ) (xs : List ℕ) → 0 < n → xs ≢ [] → 0 < length (take (three n) xs)
read_pos n xs h g = omega (counts, three_pos n h, length_pos xs g)

read_le : (n : ℕ) (xs : List ℕ) → length (take (three n) xs) ≤ n
read_le n xs = omega (counts, three_le n)

pub pipe-IsReliable : IsReliable pipe
pipe-IsReliable = record {
  read_some = λ c n h g. (
    take (three n) c.inbox,
    record c { inbox = drop (three n) c.inbox },
    refl,
    read_pos n c.inbox h g,
    read_le n c.inbox,
    sym (take-append-drop (three n) c.inbox),
  );
  read_end = λ c n h. (
    record c { inbox = drop (three n) c.inbox },
    ap (λ (bs : List ℕ). (some bs, record c { inbox = drop (three n) c.inbox }))
        (ap (take (three n)) h ∙ take-nil (three n)),
    ap (drop (three n)) h ∙ drop-nil (three n),
  );
  write_some = λ c bs h. (
    three (length bs),
    record c { outbox = c.outbox ++ take (three (length bs)) bs },
    refl,
    three_pos (length bs) (length_pos bs h),
    three_le (length bs),
    refl,
  );
}
