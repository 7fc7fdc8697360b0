-- ===== src/Tests/Retry.antt =====
-- Retries and backoff at small inputs, over fixed-point numbers.
use llm_request_balancer.Common.{
  ℕ, zero, suc, ◌*◌, ◌^◌, ◌≤◌, ◌<◌, ◌≡◌, refl, ◌⊎◌, none, some, [], ◌∷◌, ltb, if◌then◌else◌,
}
use llm_request_balancer.Common.Int.{pos, negsuc, ◌+ℤ◌}
use llm_request_balancer.Common.Int64.{two_63, times_int64, shift_one, wrap_int64}
use llm_request_balancer.Common.Float.{Fixed, fixed_float}
use llm_request_balancer.Common.Time.{millisecond, second}
use llm_request_balancer.Llm.Types.{ok}
use llm_request_balancer.Llm.Retry.{
  RetryPolicy, Attempt, received, is_success, is_retryable_status_code, base_backoff,
  calculate_backoff, tries, do_request,
}
use llm_request_balancer.Llm.Retry.Settling.{Settles, do_request-Settles}
use llm_request_balancer.Llm.Retry.Backoff.{base_backoff_cases}
use llm_request_balancer.Queue.Item.{Bytes}

-- Two retries, the backoff from 100 ms to a second.
abbrev policy : RetryPolicy
policy = record {
  max_retries = pos 2;
  min_backoff = pos (100 * millisecond);
  max_backoff = pos second;
}

-- The first attempt meets an overload, and the second gets a body.
abbrev pub busy_once : ℕ → Attempt Bytes
busy_once zero = received 503 []
busy_once (suc n) = received 200 (7 ∷ [])

abbrev pub no_jitter : ℕ → Fixed
no_jitter n = record { units = pos 500000000 }

the_second_answers :
    do_request policy busy_once no_jitter ≡ (pos (100 * millisecond) ∷ [], ok (some (7 ∷ [])))
unfolding do_request tries is_success is_retryable_status_code calculate_backoff base_backoff
    times_int64 shift_one wrap_int64 ◌+ℤ◌
the_second_answers = refl

do_request-Settles_example :
    ((m : ℕ) × (policy.max_retries ≡ pos m)
      × Settles policy busy_once no_jitter 0 m (do_request policy busy_once no_jitter))
    ⊎ ((n : ℕ) × (policy.max_retries ≡ negsuc n)
        × (do_request policy busy_once no_jitter ≡ ([], ok none)))
do_request-Settles_example = do_request-Settles policy busy_once no_jitter

-- 100 ms doubled 40 times does not fit.
base_backoff_cases_example :
    ((two_63 ≤ (100 * millisecond) * 2 ^ 40)
      ⊎ (base_backoff 40 (pos (100 * millisecond)) (pos second)
          ≡ pos (
              if ltb second ((100 * millisecond) * 2 ^ 40)
              then second
              else (100 * millisecond) * 2 ^ 40)))
    × ((40 < 64) ⊎ (base_backoff 40 (pos (100 * millisecond)) (pos second) ≡ pos 0))
base_backoff_cases_example = base_backoff_cases 40 (100 * millisecond) second
