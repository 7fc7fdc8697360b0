-- ===== src/Tests/Bucket.antt =====
-- The token bucket over fixed-point numbers.
use llm_request_balancer.Common.{
  ℕ, ◌+◌, ◌-◌, ◌*◌, ◌≤◌, ◌≡◌, refl, inl, inr, true, false, none, List, [], ◌∷◌, arith, concat,
  str_eq,
}
use llm_request_balancer.Common.Int.{pos, ◌+ℤ◌, ◌-ℤ◌, pos_part}
use llm_request_balancer.Common.Float.{Fixed, fixed_float, Fixed-IsMonotone, IsRate}
use llm_request_balancer.Common.Dict.{lookup}
use llm_request_balancer.Limiter.Types.{in_memory, LimiterConfig}
use llm_request_balancer.Limiter.Bucket.{TokenBucket, new_token_bucket, refill, consume, allow_n}
use llm_request_balancer.Limiter.Bucket.Reserve.{
  Reservation, Pending, reserve_n, fulfil, cancel_at, waiter_key_of, add_time,
}
use llm_request_balancer.Limiter.Bucket.Bounds.{run-new_token_bucket-IsBounded}
use llm_request_balancer.Limiter.Bucket.Grants.{total_bounded}
use llm_request_balancer.Limiter.Bucket.Starvation.{reserve_n_starves, cancel_at_wastes}
use llm_request_balancer.Limiter.Bucket.Level.{IsBounded}
use llm_request_balancer.Limiter.Bucket.Calls.{Call, allows, step, run, AllTimely, total, granted}
use llm_request_balancer.Limiter.Bucket.Balance.{IsRounded}

-- Two tokens per second, at most ten.
abbrev two_per_second : LimiterConfig Fixed
two_per_second = record {
  type = in_memory;
  tokens_per_second = record { units = pos 2000000000 };
  bucket_size = pos 10;
  redis_options = none;
}

abbrev at_start : TokenBucket Fixed
at_start = new_token_bucket two_per_second 0

-- Eight tokens go, one comes back in half a second.
abbrev calls : List Call
calls =
    allows "default" 0 (pos 8)
    ∷ allows "default" 500000000 (pos 3)
    ∷ allows "default" 500000001 (pos 1)
    ∷ []

the_last_is_refused : total at_start calls ≡ 11
unfolding total granted step new_token_bucket allow_n refill consume ◌+ℤ◌ ◌-ℤ◌
the_last_is_refused = refl

calls_timely : AllTimely at_start calls
unfolding step new_token_bucket allow_n refill consume ◌+ℤ◌ ◌-ℤ◌
calls_timely = omega arith

two_per_second-IsRate : IsRate two_per_second.tokens_per_second
two_per_second-IsRate = (refl, refl)

run-new_token_bucket-IsBounded_example : IsBounded (run at_start calls)
run-new_token_bucket-IsBounded_example =
    run-new_token_bucket-IsBounded Fixed-IsMonotone two_per_second 0 calls
      (inr two_per_second-IsRate) (inl refl) calls_timely

-- A billionth of a billionth of a token, the unit in which fixed-point rounding is exact.
abbrev billion : ℕ
billion = 1000000000

abbrev fixed_units : Fixed → ℕ
fixed_units x = pos_part x.units * billion

abbrev fixed_speed : Fixed → ℕ
fixed_speed r = pos_part r.units

grown_units :
    (s a d k : ℕ)
    → fixed_units (
        fixed_float.min
          (record { units = pos s })
          (fixed_float.add
            (record { units = pos a })
            (fixed_float.mul (fixed_float.seconds (pos d)) (record { units = pos k }))))
      ≤ a * billion + d * k
unfolding ◌+ℤ◌
grown_units s a d k = ground arith

nonneg_form :
    (x : Fixed)
    → fixed_float.le (fixed_float.of_int (pos 0)) x ≡ true
    → x ≡ record { units = pos (pos_part x.units) }
nonneg_form x h = ground arith

grown_fixed :
    (size x : Fixed) (d : ℕ) (r : Fixed)
    → fixed_float.le (fixed_float.of_int (pos 0)) size ≡ true
    → fixed_float.le (fixed_float.of_int (pos 0)) x ≡ true
    → IsRate r
    → fixed_units
        (fixed_float.min size (fixed_float.add x (fixed_float.mul (fixed_float.seconds (pos d)) r)))
      ≤ fixed_units x + d * fixed_speed r
grown_fixed size x d r h k l = rw (nonneg_form size h) (
    rw (nonneg_form x k) (
      rw (nonneg_form r l.0)
        (grown_units (pos_part size.units) (pos_part x.units) d (pos_part r.units))))

-- Fixed-point rounding never favours the caller.
Fixed-IsRounded : IsRounded Fixed fixed_units fixed_speed (billion * billion) (λ size. 0)
unfolding ◌-ℤ◌
Fixed-IsRounded = record {
  grow = λ size x d r h k c l. omega (
    arith,
    grown_fixed (fixed_float.of_int size) x d r (Fixed-IsMonotone.of_int_mono (pos 0) size h) k l,
  );
  spend = λ size x n c h. ground arith;
}

total_bounded_example :
    total at_start calls * (billion * billion)
    ≤ fixed_units at_start.available_tokens
      + ((run at_start calls).last_refill_time - at_start.last_refill_time)
        * fixed_speed at_start.tokens_per_second
      + 3 * (2 * 0)
total_bounded_example =
    total_bounded Fixed-IsMonotone fixed_units fixed_speed (billion * billion) (λ size. 0)
      Fixed-IsRounded two_per_second 0 calls (inr two_per_second-IsRate) (inl refl) calls_timely

-- A reservation of eleven tokens is never served. One of four, made when two are there, wakes in vain.
abbrev drained : TokenBucket Fixed
drained = record at_start { available_tokens = record { units = pos 2000000000 } }

abbrev waiting : TokenBucket Fixed
waiting = (reserve_n "default" 0 0 "r1" (pos 4) drained).0

abbrev the_reservation : Reservation
the_reservation = record {
  tokens = pos 4;
  time_to_process = 1000000000;
  reservation_id = "r1";
  valid = true;
}

abbrev the_pending : Pending
the_pending = record {
  token_cost = pos 4;
  wait_time = pos 1000000000;
  waiter_key = "default:r1";
  reservation_id = "r1";
}

drained-IsBounded : IsBounded drained
unfolding new_token_bucket
drained-IsBounded = record { rate = (refl, refl); size = omega arith; nonneg = refl; capped = refl }

reserve_n_starves_example : fulfil the_pending (run waiting []) ≡ run waiting []
unfolding reserve_n new_token_bucket refill consume ◌+ℤ◌ ◌-ℤ◌ add_time waiter_key_of concat
reserve_n_starves_example =
    reserve_n_starves Fixed-IsMonotone "default" 0 0 "r1" (pos 4) drained the_reservation
      the_pending [] drained-IsBounded (omega arith) refl tt tt

abbrev promised : TokenBucket Fixed
promised = record at_start {
  waiters = ("default:r1", 0) ∷ [];
  waiters_by_id = ("r1", "default:r1") ∷ [];
}

cancel_at_wastes_example :
    let (tb', r') = cancel_at 5 the_reservation promised in
    (r'.valid ≡ false)
    × (lookup "r1" tb'.waiters_by_id ≡ none)
    × ((fulfil the_pending tb').available_tokens
        ≡ fixed_float.sub promised.available_tokens (fixed_float.of_int (pos 4)))
    × ((fulfil the_pending tb').closed ≡ promised.closed)
unfolding new_token_bucket lookup str_eq
cancel_at_wastes_example =
    cancel_at_wastes 5 the_reservation the_pending promised refl refl refl refl refl
