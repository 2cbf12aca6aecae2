-- ===== src/Prelude/Int.antt =====
-- Signed integers over the native numbers, and the conversions of C between `gint`, `guint` and
-- `gulong`, whose bit patterns are numbers below 2 ^ 32 and 2 ^ 64.
use Prim.Native.Nat.{ℕ, ◌-◌, ◌%◌}
use mathlib.Core.Bool.{Bool}
use deepstream_fpfilter.Prelude.Tests.{ltb, ◌==◌, if◌then◌else◌}

-- `negsuc n` is -(n + 1).
pub data ℤ : Type 0 where
  pos : ℕ → ℤ
  negsuc : ℕ → ℤ

-- The value modulo `2 ^ w`, for a modulus given as a number.
abbrev wrap : ℕ → ℤ → ℕ
wrap m (pos n) = n % m
wrap m (negsuc n) = m - 1 - n % m

-- `(guint) i`
abbrev pub guint_of : ℤ → ℕ
guint_of = wrap 4294967296

-- `(gulong) i`
abbrev pub gulong_of : ℤ → ℕ
gulong_of = wrap 18446744073709551616

-- A `guint` read as a `gint`, as `%d` does.
abbrev pub gint_of : ℕ → ℤ
gint_of n = if ltb n 2147483648 then pos n else negsuc (4294967295 - n)

abbrev pub eq_ℤ : ℤ → ℤ → Bool
eq_ℤ (pos a) (pos b) = a == b
eq_ℤ (negsuc a) (negsuc b) = a == b
eq_ℤ _ _ = Bool.false
