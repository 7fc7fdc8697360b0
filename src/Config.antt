-- ===== src/Config.antt =====
-- internal/config/config.go: the configuration and `validateConfig`. Loading and the defaults are
-- Viper's.
pub mod Valid
pub mod Loading
use llm_request_balancer.Common.{Bool, ◌&&◌, Option, none, some, String, if◌then◌else◌, str_eq}
use llm_request_balancer.Common.Int.{ℤ}
use llm_request_balancer.Common.Dict.{Dict}
use llm_request_balancer.Common.Time.{Duration}
use llm_request_balancer.Llm.Service.{LlmProviderConfig}

pub record ServerConfig : Type 0 where
  pub port : String
  pub health_check_path : String
  pub health_check_interval : Duration
  pub read_timeout : Duration
  pub write_timeout : Duration
  pub idle_timeout : Duration
  pub shutdown_timeout : Duration

pub record RedisConfig : Type 0 where
  pub addr : String
  pub password : String
  pub db : ℤ
  pub pool_size : ℤ

-- `F` is `float64`.
pub record RateLimiterConfig (F : Type 0) : Type 0 where
  pub enabled : Bool
  pub use_redis : Bool
  pub tokens_per_second : F
  pub bucket_size : ℤ
  pub key_prefix : String
  pub wait_timeout : Duration
  pub model_limits : Dict F

pub record LoggingConfig : Type 0 where
  pub level : String
  pub pretty : Bool

pub record Config (F : Type 0) : Type 0 where
  pub server : ServerConfig
  pub redis : RedisConfig
  pub rate_limiter : RateLimiterConfig F
  pub llm_provider : LlmProviderConfig
  pub logging : LoggingConfig

pub data ConfigError : Type 0 where
  no_port no_redis_addr no_default_provider no_default_model : ConfigError

-- `none` for nil.
unfoldable pub validate_config : {F : Type 0} → Config F → Option ConfigError
validate_config cfg =
    if str_eq cfg.server.port ""
    then some no_port
    else if cfg.rate_limiter.use_redis && str_eq cfg.redis.addr ""
    then some no_redis_addr
    else if str_eq cfg.llm_provider.default_provider ""
    then some no_default_provider
    else if str_eq cfg.llm_provider.default_model ""
    then some no_default_model
    else none
