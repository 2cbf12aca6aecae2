-- ===== src/Prelude/Decimal.antt =====
-- Numbers as `printf` writes them, in bytes.
use native.Mathlib.Nat.{pow-suc}
use deepstream_fpfilter.Prelude.Tests.{ltb, if◌then◌else◌}
use deepstream_fpfilter.Prelude.Lists.{length}
use deepstream_fpfilter.Prelude.Int.{ℤ, pos, negsuc, gint_of}
use Prim.Native.Nat.{ℕ, zero, suc, ◌+◌, ◌-◌, ◌/◌, ◌%◌, ◌^◌, ◌≤◌, ◌<◌}
use mathlib.Core.Path.{◌≡◌, refl}
use mathlib.Core.List.{List, [], ◌∷◌}
use native.Mathlib.Omega.{arith}
use native.Mathlib.Decide.{dec_lt}

-- The digits of `n` in front of `out`, with fuel for one digit each.
digits : ℕ → ℕ → List ℕ → List ℕ
digits zero n out = out
digits (suc fuel) n out =
    let rest = digits fuel (n / 10) ((b'0' + n % 10) ∷ out) in
    if ltb n 10 then (b'0' + n) ∷ out else rest

-- `%u`; a number has no more digits than its value plus one.
unfoldable pub decimal : ℕ → List ℕ
unfolding digits
decimal n = digits (suc n) n []

-- `%d`
unfoldable pub signed : ℤ → List ℕ
unfolding decimal
signed (pos n) = decimal n
signed (negsuc n) = b'-' ∷ decimal (suc n)

signed_runs : signed (negsuc 1023) ≡ b'-' ∷ b'1' ∷ b'0' ∷ b'2' ∷ b'4' ∷ []
unfolding signed
signed_runs = refl

length-digits :
    (k fuel n : ℕ) (out : List ℕ) → n < 10 ^ suc k → length (digits fuel n out) ≤ suc k + length out
unfolding digits
length-digits k zero n out h = omega arith
length-digits zero (suc fuel) n out h = ground arith
length-digits (suc k) (suc fuel) n out h =
    let lower : n / 10 < 10 ^ suc k = omega (arith, pow-suc 10 (suc k)) in
    ground (arith, length-digits k fuel (n / 10) ((b'0' + n % 10) ∷ out) lower)

length-decimal : (n : ℕ) → n < 10 ^ 10 → length (decimal n) ≤ 10
unfolding decimal
length-decimal n h = length-digits 9 (suc n) n [] h

-- A `guint` takes at most eleven bytes under `%d`.
pub length-signed-gint_of : (n : ℕ) → n < 4294967296 → length (signed (gint_of n)) ≤ 11
unfolding signed
length-signed-gint_of n h = elim (dec_lt n 2147483648) [
  | yes small ↦ let e : gint_of n ≡ pos n = ground arith in rw e (omega (arith, length-decimal n))
  | no big ↦
      let e : gint_of n ≡ negsuc (4294967295 - n) = ground arith in
      rw e (omega (arith, length-decimal (suc (4294967295 - n))))
]
