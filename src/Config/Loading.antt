-- ===== src/Config/Loading.antt =====
-- internal/config/config.go: `setDefaults` and `LoadConfig`. Viper is an argument: what it is told,
-- the file that it reads, and what it makes of that.
use llm_request_balancer.Common.{
  Bool, true, false, not, Option, none, some, List, [], ◌∷◌, ◌++◌, String, if◌then◌else◌, str_eq,
}
use llm_request_balancer.Common.Int.{ℤ, pos}
use llm_request_balancer.Config.{Config, ConfigError, validate_config}

-- The values that `SetDefault` is given; the one `float64` is a whole number.
pub data Default : Type 0 where
  text : String → Default
  number : ℤ → Default
  whole_float : ℤ → Default
  truth : Bool → Default

-- The calls of Viper before it reads.
pub data Setting : Type 0 where
  set_default : String → Default → Setting
  set_env_prefix : String → Setting
  set_env_key_replacer : String → String → Setting
  automatic_env : Setting
  set_config_file : String → Setting
  set_config_name : String → Setting
  set_config_type : String → Setting
  add_config_path : String → Setting

pub record Viper (V F : Type 0) : Type 0 where
  pub new : V
  pub set : Setting → V → V
  pub read_in_config : V → Option V
  pub unmarshal : V → Option (Config F)

abbrev pub set_defaults : List Setting
set_defaults =
    set_default "server.port" (text ":8080")
    ∷ set_default "server.healthCheckPath" (text "/health")
    ∷ set_default "server.healthCheckInterval" (text "5s")
    ∷ set_default "server.readTimeout" (text "30s")
    ∷ set_default "server.writeTimeout" (text "60s")
    ∷ set_default "server.idleTimeout" (text "120s")
    ∷ set_default "server.shutdownTimeout" (text "30s")
    ∷ set_default "redis.addr" (text "localhost:6379")
    ∷ set_default "redis.db" (number (pos 0))
    ∷ set_default "redis.poolSize" (number (pos 10))
    ∷ set_default "rateLimiter.enabled" (truth true)
    ∷ set_default "rateLimiter.useRedis" (truth true)
    ∷ set_default "rateLimiter.tokensPerSecond" (whole_float (pos 100))
    ∷ set_default "rateLimiter.bucketSize" (number (pos 1000))
    ∷ set_default "rateLimiter.keyPrefix" (text "llm-rate-limit:")
    ∷ set_default "rateLimiter.waitTimeout" (text "30s")
    ∷ set_default "llmProvider.requestTimeout" (text "60s")
    ∷ set_default "llmProvider.maxRetries" (number (pos 3))
    ∷ set_default "llmProvider.retryBackoffMin" (text "100ms")
    ∷ set_default "llmProvider.retryBackoffMax" (text "10s")
    ∷ set_default "logging.level" (text "info")
    ∷ set_default "logging.pretty" (truth false)
    ∷ []

abbrev pub environment : List Setting
environment = set_env_prefix "LLM_BALANCER" ∷ set_env_key_replacer "." "_" ∷ automatic_env ∷ []

unfoldable pub config_source : String → List Setting
config_source config_path =
    if not (str_eq config_path "")
    then set_config_file config_path ∷ []
    else set_config_name "config"
      ∷ set_config_type "json"
      ∷ add_config_path "."
      ∷ add_config_path "./config"
      ∷ add_config_path "./internal/config"
      ∷ []

pub data LoadError : Type 0 where
  not_read not_unmarshaled : LoadError
  not_valid : ConfigError → LoadError

pub data Loaded (F : Type 0) : Type 0 where
  ok : Config F → Loaded F
  err : LoadError → Loaded F

module _ {V F : Type 0} (viper : Viper V F) where
  unfoldable pub apply_settings : List Setting → V → V
  apply_settings [] v = v
  apply_settings (s ∷ settings) v = apply_settings settings (viper.set s v)

  unfoldable pub load_config : String → Loaded F
  unfolding apply_settings config_source
  load_config config_path =
      let v = apply_settings (set_defaults ++ environment ++ config_source config_path) viper.new in
      elim (viper.read_in_config v) [
        | none ↦ err not_read
        | some v' ↦ elim (viper.unmarshal v') [
          | none ↦ err not_unmarshaled
          | some config ↦ elim (validate_config config) [
            | some why ↦ err (not_valid why)
            | none ↦ ok config
          ]
        ]
      ]
