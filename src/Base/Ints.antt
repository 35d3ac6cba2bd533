-- ===== src/Base/Ints.antt =====
-- Go's int, for differences that may be negative.
use Prim.Native.Nat.{ℕ, ◌-◌, ◌*◌}
use void_protocol_oss.Base.Tests.{leb, ltb, if◌then◌else◌}

pub data ℤ : Type 0 where
  pos negsuc : ℕ → ℤ

-- `a - b` of two lengths.
abbrev pub int_sub : ℕ → ℕ → ℤ
int_sub a b = if leb b a then pos (a - b) else negsuc (b - a - 1)

-- The two's complement value of a word with `half` values that are not negative.
abbrev pub signed : ℕ → ℕ → ℤ
signed half n = if ltb n half then pos n else negsuc (2 * half - 1 - n)
