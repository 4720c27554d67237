-- ===== src/Prelude/Int64.antt =====
-- Go's int64 as a two's-complement bit pattern, a number below 2 ^ 64. Sums and differences wrap.
use Prim.Native.Nat.{ℕ, ◌+◌, ◌-◌, ◌%◌, ◌^◌}
use mathlib.Core.Bool.{Bool}
use crypto_agent.Prelude.Tests.{ltb, leb}

abbrev pub Int64 : Type 0
Int64 = ℕ

abbrev pub is_negative : Int64 → Bool
is_negative a = leb (2 ^ 63) a

abbrev pub add_int64 : Int64 → Int64 → Int64
add_int64 a b = (a + b) % 2 ^ 64

abbrev pub sub_int64 : Int64 → Int64 → Int64
sub_int64 a b = (a + 2 ^ 64 - b) % 2 ^ 64

abbrev pub neg_int64 : Int64 → Int64
neg_int64 a = (2 ^ 64 - a) % 2 ^ 64

-- `a < b` for signed numbers: the patterns with their top bits flipped, compared
abbrev pub lt_int64 : Int64 → Int64 → Bool
lt_int64 a b = ltb ((a + 2 ^ 63) % 2 ^ 64) ((b + 2 ^ 63) % 2 ^ 64)
