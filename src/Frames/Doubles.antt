-- ===== src/Frames/Doubles.antt =====
-- The `gdouble` arithmetic of the test against `FALSE_POSITIVE_PERCENTAGE_THRESHOLD`. The type and its
-- operations are parameters; what the code relies on is that IEEE 754 converts a `guint` exactly and
-- rounds a quotient to the nearest double, 0.5 among them.
use deepstream_fpfilter.Prelude.{ℕ, ◌*◌, ◌<◌, ◌≡◌, Bool, leb, arith}

pub record Doubles : Type 1 where
  Double : Type 0
  pub of_guint : ℕ → Double
  pub div : Double → Double → Double
  pub ge : Double → Double → Bool
  -- `FALSE_POSITIVE_PERCENTAGE_THRESHOLD`
  pub threshold : Double

pub record IsRounded (D : Doubles) : Type 0 where
  -- a rounded quotient of two `guint`s is at least 0.5 exactly if the quotient is
  pub div-ge-threshold :
      (a b : ℕ)
      → 0 < b
      → a < 4294967296
      → b < 4294967296
      → D.ge (D.div (D.of_guint a) (D.of_guint b)) D.threshold ≡ leb b (2 * a)

-- Exact fractions meet the assumption.
abbrev pub fractions : Doubles
fractions = record {
  Double = ℕ × ℕ;
  of_guint = λ n. (n, 1);
  div = λ p q. (p.0 * q.1, p.1 * q.0);
  ge = λ p q. leb (q.0 * p.1) (p.0 * q.1);
  threshold = (1, 2);
}

pub fractions-IsRounded : IsRounded fractions
fractions-IsRounded = record { div-ge-threshold = λ a b h k l. ground arith }
