-- ===== src/Handler/Pricing.antt =====
-- cmd/server/main.go: `SimpleTokenCalculator`.
pub mod Valid
use llm_request_balancer.Common.{ℕ, ◌+◌, ◌/◌, none, some}
use Prim.Native.String.{len}
use llm_request_balancer.Common.Int.{ℤ, pos}
use llm_request_balancer.Llm.Types.{Request}
use llm_request_balancer.Llm.Json.{Fields, find, as_text}

abbrev base_cost : ℕ
base_cost = 10

module _ {F : Type 0} where
  unfoldable pub calculate_token_cost : Request (Fields F) → ℤ
  calculate_token_cost req = elim req.payload [
    | none ↦ pos base_cost
    | some payload ↦ elim (as_text (find "prompt" payload)) [
      | none ↦ pos base_cost
      | some content ↦ pos (base_cost + len content / 4)
    ]
  ]
