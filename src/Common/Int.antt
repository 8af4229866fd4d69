-- ===== src/Common/Int.antt =====
-- Go's `int` as far as the agent uses it: signs and comparison with lengths.
use Prim.Native.Nat.{ℕ}

-- `negsuc n` is -(n + 1).
pub data ℤ : Type 0 where
  pos : ℕ → ℤ
  negsuc : ℕ → ℤ

-- The integer where it is positive, and 0 elsewhere.
abbrev pub pos_part : ℤ → ℕ
pos_part (pos n) = n
pos_part (negsuc n) = 0
