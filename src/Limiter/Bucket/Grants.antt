-- ===== src/Limiter/Bucket/Grants.antt =====
-- How many tokens `TokenBucket` hands out.
use llm_request_balancer.Common.{
  suc, length, ◌-◌, ◌≤◌, ◌≡◌, refl, ◌⊎◌, List, [], ◌∷◌, arith, ℕ, ◌+◌, ◌*◌, ◌∙◌,
}
use llm_request_balancer.Common.Int.{ℤ}
use llm_request_balancer.Common.Float.{Float64, nought, ◌≼◌, IsRate, IsMonotone}
use llm_request_balancer.Common.Time.{Time}
use llm_request_balancer.Limiter.Types.{LimiterConfig}
use llm_request_balancer.Limiter.Bucket.{TokenBucket, new_token_bucket}
use llm_request_balancer.Limiter.Bucket.Calls.{Call, step, run, AllTimely, granted, total}
use llm_request_balancer.Limiter.Bucket.Level.{IsBounded, new_token_bucket-IsBounded, IsSized}
use llm_request_balancer.Limiter.Bucket.Bounds.{step-IsBounded}
use llm_request_balancer.Limiter.Bucket.Balance.{
  IsRounded, split_time, Balanced, step-Balanced, still-Balanced,
}

module _ {F : Type 0} ⦃fl : Float64 F⦄ (laws : IsMonotone F) (units speed : F → ℕ) (token : ℕ)
    (slack : ℤ → ℕ) (rounded : IsRounded F units speed token slack) where
  suc_times : (k x : ℕ) → suc k * x ≡ x + k * x
  suc_times k x = omega arith

  run-Balanced :
      (tb : TokenBucket F) (cs : List Call)
      → AllTimely tb cs
      → IsBounded tb
      → Balanced laws units speed token slack rounded tb
          (total tb cs)
          (length cs * (2 * slack tb.bucket_size))
          (run tb cs)
  unfolding run total granted step
  run-Balanced tb [] h b =
      still-Balanced laws units speed token slack rounded tb tb (0 * (2 * slack tb.bucket_size))
        refl refl refl refl
  run-Balanced tb (c ∷ cs) h b =
      join (step-Balanced laws units speed token slack rounded tb c h.0 b)
        (run-Balanced (step tb c) cs h.1 (step-IsBounded laws tb c h.0 b))
    where
      join :
          Balanced laws units speed token slack rounded tb
            (granted tb c)
            (2 * slack tb.bucket_size)
            (step tb c)
          → Balanced laws units speed token slack rounded
              (step tb c)
              (total (step tb c) cs)
              (length cs * (2 * slack (step tb c).bucket_size))
              (run (step tb c) cs)
          → Balanced laws units speed token slack rounded tb
              (granted tb c + total (step tb c) cs)
              (suc (length cs) * (2 * slack tb.bucket_size))
              (run (step tb c) cs)
      join (p, q, r, z) (p', q', r', z') = (
        omega (
          arith,
          rw z at (rw r at p'),
          suc_times (length cs) (2 * slack tb.bucket_size),
          p,
          split_time tb.last_refill_time (step tb c).last_refill_time
              (run (step tb c) cs).last_refill_time (speed tb.tokens_per_second) q q',
        ),
        omega arith,
        r' ∙ r,
        z' ∙ z,
      )

  -- The rate limit: whatever calls are made, in any order, the tokens that they hand out are at
  -- most the bucket's first level, what the rate brings in from its creation to its last refill, and
  -- a gain from rounding, for each call at most twice the `slack` of one operation of `float64` on a
  -- level up to the bucket's size. The clock must not run backwards, the configured rate be a finite
  -- number or not positive, and the size be configured or 60 times the rate at most 2 ^ 62. Of
  -- `float64` it uses the laws `IsMonotone` and `IsRounded`.
  pub total_bounded :
      (c : LimiterConfig F) (now : Time) (cs : List Call)
      → (c.tokens_per_second ≼ nought) ⊎ IsRate c.tokens_per_second
      → IsSized c
      → AllTimely (new_token_bucket c now) cs
      → let tb = new_token_bucket c now in
        total tb cs * token
        ≤ units tb.available_tokens
          + ((run tb cs).last_refill_time - tb.last_refill_time) * speed tb.tokens_per_second
          + length cs * (2 * slack tb.bucket_size)
  total_bounded c now cs h sized t = omega (
    arith,
    run-Balanced (new_token_bucket c now) cs t (new_token_bucket-IsBounded laws c now h sized),
  )
