-- ===== src/Limiter/Bucket/Bounds.antt =====
-- The level of a `TokenBucket` through any calls.
use llm_request_balancer.Common.{
  ◌≤◌, refl, ◌⊎◌, inl, inr, ◌&&◌, List, [], ◌∷◌, String, Bool-cases, Option-cases,
}
use llm_request_balancer.Common.Int.{ℤ, pos, ◌≤ℤ◌, leb_ℤ}
use llm_request_balancer.Common.Float.{Float64, nought, ◌≼◌, IsRate, IsMonotone}
use llm_request_balancer.Common.Time.{Time, before}
use llm_request_balancer.Common.Dict.{lookup}
use llm_request_balancer.Limiter.Types.{LimiterConfig}
use llm_request_balancer.Limiter.Bucket.{
  TokenBucket, new_token_bucket, refill, get_tokens_available_n,
}
use llm_request_balancer.Limiter.Bucket.Reserve.{
  Reservation, Pending, reserve_n, fulfil, take_reserved, notify, add_waiter, drop_waiter,
  cancel_at, waiter_key_of,
}
use llm_request_balancer.Limiter.Bucket.Calls.{
  Call, allows, reserves, counts, fulfils, cancels, step, Timely, run, AllTimely,
}
use llm_request_balancer.Limiter.Bucket.Level.{
  IsBounded, refill-IsBounded, consume-IsBounded, taken-IsBounded, allow_n-IsBounded, same_level,
  new_token_bucket-IsBounded, IsSized,
}

module _ {F : Type 0} ⦃fl : Float64 F⦄ (laws : IsMonotone F) where
  pub reserve_n-IsBounded :
      (key : String) (now later : Time) (id : String) (cost : ℤ) (tb : TokenBucket F)
      → tb.last_refill_time ≤ now
      → IsBounded tb
      → IsBounded (reserve_n key now later id cost tb).0
  unfolding reserve_n
  reserve_n-IsBounded key now later id cost tb h b =
      let full = refill-IsBounded laws now tb h b in
      elim (Bool-cases (leb_ℤ cost (pos 0))) [
        | inl bad ↦ rw (bad, reserve_n) b
        | inr good ↦
            elim (Bool-cases
              (fl.le (fl.sub (fl.of_int cost) (refill now tb).available_tokens) nought)) [
                | inl enough ↦
                    rw (good, reserve_n)
                      (rw (enough, reserve_n)
                        (taken-IsBounded laws cost (refill now tb) good
                          (laws.le_of_sub _ cost enough) full))
                | inr short ↦
                    rw (good, reserve_n) (rw (short, reserve_n) (waiting (refill now tb) full))
              ]
      ]
    where
      waiting :
          (t : TokenBucket F) → IsBounded t → IsBounded (add_waiter (waiter_key_of key id) id t)
      waiting t b = unfold add_waiter in same_level t _ refl refl refl b

  notify-same : (p : Pending) (tb : TokenBucket F) → IsBounded tb → IsBounded (notify p tb)
  unfolding notify drop_waiter
  notify-same p tb b = elim (Option-cases (lookup p.waiter_key tb.waiters)) [
    | inl e ↦ rw (e, notify) b
    | inr (ch, e) ↦ rw (e, notify) (same_level tb _ refl refl refl b)
  ]

  fulfil-IsBounded :
      (p : Pending) (tb : TokenBucket F)
      → pos 0 ≤ℤ p.token_cost
      → IsBounded tb
      → IsBounded (fulfil p tb)
  unfolding fulfil take_reserved
  fulfil-IsBounded p tb h b =
      elim (Bool-cases (fl.le (fl.of_int p.token_cost) tb.available_tokens)) [
        | inl enough ↦
            rw (enough, fulfil, take_reserved)
              (notify-same p _ (consume-IsBounded laws p.token_cost tb h enough b))
        | inr short ↦ rw (short, fulfil, take_reserved) b
      ]

  cancel_at-IsBounded :
      (now : Time) (r : Reservation) (tb : TokenBucket F)
      → IsBounded tb
      → IsBounded (cancel_at now r tb).0
  unfolding cancel_at drop_waiter
  cancel_at-IsBounded now r tb b = elim (Bool-cases (r.valid && before now r.time_to_process)) [
    | inr off ↦ rw (off, cancel_at) b
    | inl live ↦ elim (Option-cases (lookup r.reservation_id tb.waiters_by_id)) [
      | inl e ↦ rw (live, cancel_at) (rw (e, cancel_at) b)
      | inr (key, e) ↦ rw (live, cancel_at) (rw (e, cancel_at) (same_level tb _ refl refl refl b))
    ]
  ]

  pub step-IsBounded :
      (tb : TokenBucket F) (c : Call) → Timely tb c → IsBounded tb → IsBounded (step tb c)
  unfolding step get_tokens_available_n
  step-IsBounded tb (allows key now cost) h b = allow_n-IsBounded laws key now cost tb h b
  step-IsBounded tb (reserves key now later id cost) h b =
      reserve_n-IsBounded key now later id cost tb h b
  step-IsBounded tb (counts key now) h b = refill-IsBounded laws now tb h b
  step-IsBounded tb (fulfils p) h b = fulfil-IsBounded p tb h b
  step-IsBounded tb (cancels now r) h b = cancel_at-IsBounded now r tb b

  run-IsBounded :
      (tb : TokenBucket F) (cs : List Call) → AllTimely tb cs → IsBounded tb → IsBounded (run tb cs)
  unfolding run
  run-IsBounded tb [] h b = b
  run-IsBounded tb (c ∷ cs) h b = run-IsBounded (step tb c) cs h.1 (step-IsBounded tb c h.0 b)

  -- The bucket is never overdrawn and never overfull: from its creation on, whatever calls are
  -- made, in any order, the level is between 0 and the size of the bucket, if the clock does not
  -- run backwards, the configured rate is a finite number or not positive, and the size is
  -- configured or 60 times the rate is at most 2 ^ 62. Of `float64` it uses the laws `IsMonotone`.
  pub run-new_token_bucket-IsBounded :
      (c : LimiterConfig F) (now : Time) (cs : List Call)
      → (c.tokens_per_second ≼ nought) ⊎ IsRate c.tokens_per_second
      → IsSized c
      → AllTimely (new_token_bucket c now) cs
      → IsBounded (run (new_token_bucket c now) cs)
  run-new_token_bucket-IsBounded c now cs h sized t =
      run-IsBounded (new_token_bucket c now) cs t (new_token_bucket-IsBounded laws c now h sized)
