-- ===== src/Prelude/Ints.antt =====
-- Go's `int` arguments, as far as the constructors look at them: their sign and their size.
use Prim.Native.Nat.{ℕ, zero, suc, ◌-◌}
use mathlib.Core.Bool.{Bool, true}
use go_streams.Prelude.Tests.{ltb, leb, if◌then◌else◌}

-- `negsuc n` is -(n + 1).
pub data ℤ : Type 0 where
  pos : ℕ → ℤ
  negsuc : ℕ → ℤ

-- `n < 1`
abbrev pub nonpositive : ℤ → Bool
nonpositive (pos n) = ltb n 1
nonpositive (negsuc n) = true

-- The number that passed the test above.
abbrev pub magnitude : ℤ → ℕ
magnitude (pos n) = n
magnitude (negsuc n) = 0

abbrev pub neg : ℕ → ℤ
neg zero = pos 0
neg (suc n) = negsuc n

-- The difference, which may be negative.
abbrev pub sub : ℕ → ℕ → ℤ
sub a b = if leb b a then pos (a - b) else neg (b - a)
