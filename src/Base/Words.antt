-- ===== src/Base/Words.antt =====
-- Go's `int64`, as the 64-bit pattern of its two's complement: a number below 2 ^ 64.
use Prim.Native.Nat.{ℕ, ◌+◌, ◌-◌, ◌^◌, ◌%◌, ◌<◌}
use mathlib.Core.Path.{◌≡◌}
use mathlib.Core.Bool.{Bool}
use native.Mathlib.Omega.{arith}
use kairos_p2p_engine.Base.Tests.{ltb}

abbrev pub int64_mod : ℕ
int64_mod = 2 ^ 64

abbrev pub int64_sign : ℕ
int64_sign = 2 ^ 63

-- `a - b`, with wrap-around.
unfoldable pub sub64 : ℕ → ℕ → ℕ
sub64 a b = (a + int64_mod - b) % int64_mod

-- `a < b` of signed numbers.
unfoldable pub lt64 : ℕ → ℕ → Bool
lt64 a b = ltb ((a + int64_sign) % int64_mod) ((b + int64_sign) % int64_mod)

-- On patterns of non-negative numbers, `limit < a - b` is the comparison of natural numbers.
pub lt64-sub64 :
    (limit a b : ℕ)
    → limit < int64_sign
    → a < int64_sign
    → b < int64_sign
    → lt64 limit (sub64 a b) ≡ ltb (b + limit) a
unfolding lt64 sub64
lt64-sub64 limit a b hl ha hb = ground arith
