-- ===== src/Tests/Config.antt =====
-- A configuration that `validateConfig` accepts, and one that it does not.
use llm_request_balancer.Common.{ℕ, ◌*◌, ◌≡◌, refl, true, false, some, [], str_eq}
use llm_request_balancer.Common.Int.{pos}
use llm_request_balancer.Common.Time.{second}
use llm_request_balancer.Config.{Config, no_redis_addr, validate_config}

abbrev pub local : Config ℕ
local = record {
  server = record {
    port = "8080";
    health_check_path = "/health";
    health_check_interval = pos (30 * second);
    read_timeout = pos (5 * second);
    write_timeout = pos (10 * second);
    idle_timeout = pos (120 * second);
    shutdown_timeout = pos (30 * second);
  };
  redis = record { addr = ""; password = ""; db = pos 0; pool_size = pos 10 };
  rate_limiter = record {
    enabled = true;
    use_redis = false;
    tokens_per_second = 10;
    bucket_size = pos 100;
    key_prefix = "limiter:";
    wait_timeout = pos (30 * second);
    model_limits = [];
  };
  llm_provider = record { default_provider = "openai"; default_model = "gpt-4o"; providers = [] };
  logging = record { level = "info"; pretty = false };
}

-- The same, with the limiter in Redis and no address.
abbrev lost : Config ℕ
lost = record local { rate_limiter = record (local.rate_limiter) { use_redis = true } }

redis_without_address : validate_config lost ≡ some no_redis_addr
unfolding validate_config str_eq
redis_without_address = refl
