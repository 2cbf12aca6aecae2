-- ===== src/Prelude/Text.antt =====
-- Texts as bytes.
use Prim.Native.Nat.{ℕ, ◌-◌}
use Prim.Native.Char.{code}
use Prim.Native.String.{String}
use mathlib.Core.List.{List, [], ◌∷◌}
use deepstream_fpfilter.Prelude.Lists.{take}

-- The code points of a text, which are its bytes for the ASCII texts of the program.
abbrev pub codes : String → List ℕ
codes String.[] = []
codes (String.◌∷◌ c s) = code c ∷ codes s

-- What `g_snprintf` leaves in a buffer of `n` bytes, without the final NUL.
abbrev pub snprintf : ℕ → List ℕ → List ℕ
snprintf n text = take (n - 1) text
