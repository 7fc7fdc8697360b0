-- ===== src/Handler/Pricing/Valid.antt =====
-- A price is a cost that the limiter takes.
use llm_request_balancer.Common.{◌≡◌, ◌⊎◌, true, false, arith, String}
use llm_request_balancer.Common.Int.{pos, ◌≤ℤ◌}
use llm_request_balancer.Common.Float.{Float64}
use llm_request_balancer.Common.Time.{Time}
use llm_request_balancer.Llm.Types.{Request}
use llm_request_balancer.Llm.Json.{Fields}
use llm_request_balancer.Limiter.Types.{ok}
use llm_request_balancer.Limiter.Bucket.{TokenBucket, allow_n}
use llm_request_balancer.Handler.Pricing.{calculate_token_cost}

module _ {F : Type 0} where
  cost_at_least : (req : Request (Fields F)) → pos 10 ≤ℤ calculate_token_cost req
  unfolding calculate_token_cost
  cost_at_least req = ground arith

module _ {F : Type 0} ⦃fl : Float64 F⦄ where
  -- The price of a request is at least 10, so the bucket never refuses it as an invalid cost: it
  -- answers yes or no.
  pub calculate_token_cost-allow_n :
      (req : Request (Fields F)) (key : String) (now : Time) (tb : TokenBucket F)
      → (pos 10 ≤ℤ calculate_token_cost req)
        × (((allow_n key now (calculate_token_cost req) tb).1 ≡ ok true)
            ⊎ ((allow_n key now (calculate_token_cost req) tb).1 ≡ ok false))
  unfolding allow_n
  calculate_token_cost-allow_n req key now tb =
      (cost_at_least req, ground (arith, cost_at_least req))
