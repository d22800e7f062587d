-- ===== src/Go/Floats.antt =====
-- Go's float64 as an interface: the program converts, multiplies, divides and compares, and
-- nothing here depends on how a float is rounded.
use irl_universal_ingest.Prelude.{ℕ, ℤ}

pub record Floats (F : Type 0) : Type 0 where
  pub of_int : ℤ → F  -- float64(n)
  pub to_int : F → ℤ  -- int64(x)
  pub mul : F → F → F
  pub div : F → F → F
  pub seconds : ℕ → F  -- Duration.Seconds
