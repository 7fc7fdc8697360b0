-- ===== src/Common/Int64.antt =====
-- Two's complement arithmetic at 64 bits, for the code that may overflow.
use Prim.Native.Nat.{ℕ, suc, ◌-◌, ◌%◌, ◌^◌}
use llm_request_balancer.Common.Tests.{ltb, if◌then◌else◌}
use llm_request_balancer.Common.Int.{ℤ, pos, negsuc, sub_ℕ, times_ℤ}

abbrev pub two_63 : ℕ
two_63 = 2 ^ 63

abbrev pub two_64 : ℕ
two_64 = 2 ^ 64

-- The residue of an integer at 64 bits, as an unsigned number and as a signed one.
abbrev pub residue : ℤ → ℕ
residue (pos n) = n % two_64
residue (negsuc n) = two_64 - suc (n % two_64)

unfoldable pub wrap_int64 : ℤ → ℤ
wrap_int64 z = let r = residue z in if ltb r two_63 then pos r else sub_ℕ r two_64

-- `1 << n` at the type `int64`.
unfoldable pub shift_one : ℕ → ℤ
unfolding wrap_int64
shift_one n = if ltb n 64 then wrap_int64 (pos (2 ^ n)) else pos 0

unfoldable pub times_int64 : ℤ → ℤ → ℤ
times_int64 a b = wrap_int64 (times_ℤ a b)
