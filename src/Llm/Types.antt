-- ===== src/Llm/Types.antt =====
-- internal/llm/provider.go: requests, responses and errors. A payload and a result are JSON
-- objects; what only passes them on is written for any type of these.
use llm_request_balancer.Common.{ℕ, Option, String}
use llm_request_balancer.Common.Int.{ℤ}

-- The errors of the package, those of its JSON calls and of `doRequest`, and the two of
-- `NewService`. `bad_status` has the code.
pub data LlmError : Type 0 where
  provider_not_found model_not_found context_canceled request_failed : LlmError
  request_not_created body_not_read not_marshaled not_unmarshaled : LlmError
  no_default_provider no_default_model : LlmError
  bad_status : ℕ → LlmError

pub data Result {ℓ} (A : Type ℓ) : Type ℓ where
  ok : A → Result A
  err : LlmError → Result A

-- The payload is `none` where the map is nil.
pub record Request (P : Type 0) : Type 0 where
  pub provider_name : String
  pub model_name : String
  pub payload : Option P

pub record Response (E R : Type 0) : Type 0 where
  pub provider_name : String
  pub model_name : String
  pub result : Option R
  pub tokens_used : ℤ
  pub error : Option E
