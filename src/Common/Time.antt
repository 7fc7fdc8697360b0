-- ===== src/Common/Time.antt =====
-- `time.Time` and `time.Duration`, in nanoseconds. An instant counts from Go's zero time, so the
-- instant 0 is the one that `IsZero` accepts.
use Prim.Native.Nat.{ℕ, ◌*◌}
use mathlib.Core.Bool.{Bool}
use llm_request_balancer.Common.Tests.{ltb, ◌==◌}
use llm_request_balancer.Common.Int.{ℤ, sub_ℕ}

abbrev pub Time : Type 0
Time = ℕ

abbrev pub Duration : Type 0
Duration = ℤ

abbrev pub is_zero : Time → Bool
is_zero t = t == 0

-- `t.Before(u)` and `t.After(u)`.
abbrev pub before : Time → Time → Bool
before t u = ltb t u

abbrev pub after : Time → Time → Bool
after t u = ltb u t

-- `t.Sub(u)`, negative if `u` is later.
abbrev pub sub_time : Time → Time → Duration
sub_time t u = sub_ℕ t u

abbrev pub millisecond : ℕ
millisecond = 1000000

abbrev pub second : ℕ
second = 1000 * millisecond

abbrev pub hour : ℕ
hour = 3600 * second
