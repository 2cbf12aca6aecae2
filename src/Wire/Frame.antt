-- ===== src/Wire/Frame.antt =====
-- The frame of a message: its length in two bytes, the low one first (`memcpy` of a `guint16` on the
-- little-endian machines that the program is built for), and then its bytes.
use Prim.Native.Nat.{min}
use deepstream_fpfilter.Prelude.{
  ℕ, ◌+◌, ◌-◌, ◌*◌, ◌/◌, ◌%◌, ◌≡◌, List, [], ◌∷◌, ◌++◌, length, take, drop, replicate,
  length-append, length-drop, length-take, length-replicate, arith,
}

-- `MAX_PACKET_LEN`
abbrev pub max_packet_len : ℕ
max_packet_len = 4 * 1024

-- `guint`
abbrev pub u32 : ℕ → ℕ
u32 n = n % 4294967296

-- `guint16`
abbrev pub u16 : ℕ → ℕ
u16 n = n % 65536

-- `memcpy(write_buffer, &len, 2)`
abbrev pub len_bytes : ℕ → List ℕ
len_bytes len = len % 256 ∷ len / 256 ∷ []

-- `memcpy(&len, len_buff, 2)`
abbrev pub len_of_bytes : List ℕ → ℕ
len_of_bytes (lo ∷ hi ∷ _) = lo + 256 * hi
len_of_bytes _ = 0

abbrev pub frame : List ℕ → List ℕ
frame payload = len_bytes (length payload) ++ payload

pub len_of_bytes-len_bytes : (n : ℕ) → len_of_bytes (len_bytes n) ≡ n
len_of_bytes-len_bytes n = omega arith

-- `guchar buffer[MAX_PACKET_LEN] = {0,}`
unfoldable pub packet_buffer : List ℕ
packet_buffer = replicate max_packet_len 0

pub length-packet_buffer : length packet_buffer ≡ 4096
unfolding packet_buffer
length-packet_buffer = length-replicate {A = ℕ} max_packet_len 0

-- The sizes of runs of bytes, for `omega`.
pub length-append_bytes : (xs ys : List ℕ) → length (xs ++ ys) ≡ length xs + length ys
length-append_bytes = length-append

pub length-drop_bytes : (n : ℕ) (xs : List ℕ) → length (drop n xs) ≡ length xs - n
length-drop_bytes = length-drop

pub length-take_bytes : (n : ℕ) (xs : List ℕ) → length (take n xs) ≡ min n (length xs)
length-take_bytes = length-take

pub ruleset counts = (arith, length-append_bytes, length-drop_bytes, length-take_bytes)
