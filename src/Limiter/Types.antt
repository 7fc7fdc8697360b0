-- ===== src/Limiter/Types.antt =====
-- internal/limiter/limiter.go: the errors, the configuration and the interface of a limiter.
use llm_request_balancer.Common.{Bool, Option, String}
use llm_request_balancer.Common.Int.{ℤ}
use llm_request_balancer.Common.Time.{Time, Duration}

-- The sentinel errors, the unnamed ones of the constructors and of the Redis limiter, and `ctx.Err()`.
pub data LimiterError : Type 0 where
  rate_limited invalid_token_cost backend_unavailable client_required bad_reply : LimiterError
  wrong_type not_implemented : LimiterError
  context_done : LimiterError

pub data Result {ℓ} (A : Type ℓ) : Type ℓ where
  ok : A → Result A
  err : LimiterError → Result A

pub data LimiterType : Type 0 where
  in_memory redis other_type : LimiterType

-- `RedisOptions` without the script path, which no code reads.
pub record RedisOptions : Type 0 where
  pub key_prefix : String
  pub key_expiry : Duration

pub record LimiterConfig (F : Type 0) : Type 0 where
  pub type : LimiterType
  pub tokens_per_second : F
  pub bucket_size : ℤ
  pub redis_options : Option RedisOptions

-- The method of the interface `Limiter` that the worker calls, over the limiter's state. The time
-- is that of the call.
pub record Limiter (L : Type 0) : Type 0 where
  pub allow : Time → ℤ → L → L × Result Bool

-- `New`
unfoldable pub new_limiter : {F L : Type 0} → LimiterConfig F → Result L
new_limiter c = err not_implemented
