-- ===== src/Go/Int.antt =====
-- Go's int: 64-bit values that the program only reads and compares. `negsuc n` is -(n + 1).
use load_balancer_operator_f.Prelude.{ℕ, Bool, true, false, ltb}

pub data ℤ : Type 0 where
  pos negsuc : ℕ → ℤ

-- a < b
abbrev pub lt_int : ℤ → ℤ → Bool
lt_int (pos a) (pos b) = ltb a b
lt_int (pos a) (negsuc b) = false
lt_int (negsuc a) (pos b) = true
lt_int (negsuc a) (negsuc b) = ltb b a
