-- ===== src/Limiter/Bucket/Calls.antt =====
-- The calls that reach a `TokenBucket`, runs of them, and the tokens that they hand out.
use llm_request_balancer.Common.{◌≤◌, true, List, [], ◌∷◌, String, ℕ, ◌+◌, none, if◌then◌else◌}
use llm_request_balancer.Common.Int.{ℤ, pos, ◌≤ℤ◌, pos_part}
use llm_request_balancer.Common.Float.{Float64}
use llm_request_balancer.Common.Time.{Time}
use llm_request_balancer.Limiter.Types.{ok}
use llm_request_balancer.Limiter.Bucket.{TokenBucket, allow_n, get_tokens_available_n}
use llm_request_balancer.Limiter.Bucket.Reserve.{
  Reservation, Pending, reserve_n, fulfil, take_reserved, cancel_at,
}

-- The calls that change a bucket, with the times that they read.
pub data Call : Type 0 where
  allows : String → Time → ℤ → Call
  reserves : String → Time → Time → String → ℤ → Call
  counts : String → Time → Call
  fulfils : Pending → Call
  cancels : Time → Reservation → Call

module _ {F : Type 0} ⦃fl : Float64 F⦄ where
  unfoldable pub step : TokenBucket F → Call → TokenBucket F
  step tb (allows key now cost) = (allow_n key now cost tb).0
  step tb (reserves key now later id cost) = (reserve_n key now later id cost tb).0
  step tb (counts key now) = (get_tokens_available_n key now tb).0
  step tb (fulfils p) = fulfil p tb
  step tb (cancels now r) = (cancel_at now r tb).0

  -- The clock does not run backwards, and a goroutine holds a cost that `ReserveN` accepted.
  abbrev pub Timely : TokenBucket F → Call → Type 0
  Timely tb (allows key now cost) = tb.last_refill_time ≤ now
  Timely tb (reserves key now later id cost) = tb.last_refill_time ≤ now
  Timely tb (counts key now) = tb.last_refill_time ≤ now
  Timely tb (fulfils p) = pos 0 ≤ℤ p.token_cost
  Timely tb (cancels now r) = Unit

  unfoldable pub run : TokenBucket F → List Call → TokenBucket F
  run tb [] = tb
  run tb (c ∷ cs) = run (step tb c) cs

  abbrev pub AllTimely : TokenBucket F → List Call → Type 0
  AllTimely tb [] = Unit
  AllTimely tb (c ∷ cs) = Timely tb c × AllTimely (step tb c) cs

-- The tokens that a call hands out: to an allowed request, to a reservation that need not wait,
-- and to one that its goroutine serves.
module _ {F : Type 0} ⦃fl : Float64 F⦄ where
  unfoldable pub granted : TokenBucket F → Call → ℕ
  granted tb (allows key now cost) = elim (allow_n key now cost tb).1 [
    | ok true ↦ pos_part cost
    | _ ↦ 0
  ]
  granted tb (reserves key now later id cost) = elim (reserve_n key now later id cost tb).1 [
    | ok (r, none) ↦ pos_part cost
    | _ ↦ 0
  ]
  granted tb (counts key now) = 0
  granted tb (fulfils p) = if (take_reserved p tb).1 then pos_part p.token_cost else 0
  granted tb (cancels now r) = 0

  unfoldable pub total : TokenBucket F → List Call → ℕ
  total tb [] = 0
  total tb (c ∷ cs) = granted tb c + total (step tb c) cs
