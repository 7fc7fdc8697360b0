-- ===== src/Server.antt =====
-- cmd/server/main.go: `main`, from the configuration to the components that serve. Where it calls
-- `os.Exit(1)` the result is the reason.
pub mod Starting
pub mod Stopping
use Prim.Native.String.{slice}
use llm_request_balancer.Common.{
  ◌*◌, Bool, true, false, none, some, String, concat, str_eq, if◌then◌else◌,
}
use llm_request_balancer.Common.Int.{pos}
use llm_request_balancer.Common.Float.{Float64}
use llm_request_balancer.Common.Time.{Time, Duration, millisecond, second, hour}
use llm_request_balancer.Limiter.Types as Limits
use llm_request_balancer.Limiter.Types.{LimiterConfig}
use llm_request_balancer.Limiter.Bucket.{TokenBucket, new_token_bucket}
use llm_request_balancer.Limiter.Redis.Scripts.{RedisTokenBucket, new_redis_token_bucket}
use llm_request_balancer.Llm.Types as Llms
use llm_request_balancer.Llm.Service.{LlmService, new_service}
use llm_request_balancer.Queue.Item as Items
use llm_request_balancer.Queue.Item.{QueueConfig}
use llm_request_balancer.Queue.Creating.{AnyQueue, new_queue}
use llm_request_balancer.Queue.Worker.{WorkerConfig, WorkerSettings, new_worker}
use llm_request_balancer.Config.{Config}
use llm_request_balancer.Config.Loading.{Viper, LoadError, ok, err, load_config}

-- `limiter.Limiter` holds one of the two.
pub data AnyLimiter (F : Type 0) : Type 0 where
  bucket : TokenBucket F → AnyLimiter F
  redis_bucket : RedisTokenBucket F → AnyLimiter F

pub data StartError : Type 0 where
  not_loaded : LoadError → StartError
  redis_not_connected limiter_not_created queue_not_created service_not_created : StartError

-- The server with its handlers: `timeout` is the one of `LLMRequestHandler`.
pub record Components (F : Type 0) : Type 0 where
  pub limiter : AnyLimiter F
  pub queue : AnyQueue
  pub service : LlmService
  pub worker : WorkerSettings
  pub timeout : Duration
  pub address : String
  pub read_timeout : Duration
  pub write_timeout : Duration
  pub idle_timeout : Duration

pub data Started (F : Type 0) : Type 0 where
  serving : Components F → Started F
  exited : StartError → Started F

-- `strings.HasPrefix(s, ":")`
abbrev pub has_colon : String → Bool
has_colon s = str_eq (slice s 0 1) ":"

unfoldable pub address_of : String → String
address_of port = if has_colon port then port else concat ":" port

abbrev pub redis_queue_config : QueueConfig
redis_queue_config = record {
  type = Items.redis;
  max_size = pos 10000;
  item_ttl = pos (24 * hour);
  redis_options = some (record { key_prefix = "queue:"; key_expiry = pos (72 * hour) });
}

abbrev pub memory_queue_config : QueueConfig
memory_queue_config = record {
  type = Items.in_memory;
  max_size = pos 1000;
  item_ttl = pos (1 * hour);
  redis_options = none;
}

abbrev pub worker_config : WorkerConfig
worker_config = record {
  polling_interval = pos (100 * millisecond);
  max_concurrent = pos 10;
  retry_delay = pos (500 * millisecond);
}

module _ {F : Type 0} ⦃fl : Float64 F⦄ where
  unfoldable pub redis_limiter_config : Config F → LimiterConfig F
  redis_limiter_config cfg = record {
    type = Limits.redis;
    tokens_per_second = cfg.rate_limiter.tokens_per_second;
    bucket_size = cfg.rate_limiter.bucket_size;
    redis_options =
        some (record { key_prefix = cfg.rate_limiter.key_prefix; key_expiry = pos (24 * hour) });
  }

  unfoldable pub memory_limiter_config : Config F → LimiterConfig F
  memory_limiter_config cfg = record {
    type = Limits.in_memory;
    tokens_per_second = cfg.rate_limiter.tokens_per_second;
    bucket_size = cfg.rate_limiter.bucket_size;
    redis_options = none;
  }

  -- From the LLM service on.
  unfoldable pub serve : Config F → AnyLimiter F → AnyQueue → Started F
  unfolding address_of
  serve cfg limiter queue = elim (new_service cfg.llm_provider) [
    | Llms.err why ↦ exited service_not_created
    | Llms.ok service ↦ serving (record {
      limiter = limiter;
      queue = queue;
      service = service;
      worker = new_worker worker_config;
      timeout = pos (300 * second);
      address = address_of cfg.server.port;
      read_timeout = cfg.server.read_timeout;
      write_timeout = cfg.server.write_timeout;
      idle_timeout = cfg.server.idle_timeout;
    })
  ]

  -- The components in Redis; the client is never nil.
  unfoldable pub set_up_redis : Config F → Started F
  unfolding redis_limiter_config serve
  set_up_redis cfg = elim (new_redis_token_bucket (redis_limiter_config cfg) true) [
    | Limits.err why ↦ exited limiter_not_created
    | Limits.ok rl ↦ elim (new_queue redis_queue_config true) [
      | Items.err why ↦ exited queue_not_created
      | Items.ok queue ↦ serve cfg (redis_bucket rl) queue
    ]
  ]

  unfoldable pub set_up_memory : Time → Config F → Started F
  unfolding memory_limiter_config serve
  set_up_memory now cfg = elim (new_queue memory_queue_config false) [
    | Items.err why ↦ exited queue_not_created
    | Items.ok queue ↦ serve cfg (bucket (new_token_bucket (memory_limiter_config cfg) now)) queue
  ]

  -- `main`: `answers` is whether Redis answers to the `Ping`, and `now` the time at which the bucket
  -- is made.
  unfoldable pub start_server : {V : Type 0} → Viper V F → String → Bool → Time → Started F
  unfolding set_up_redis set_up_memory
  start_server viper config_path answers now = elim (load_config viper config_path) [
    | err why ↦ exited (not_loaded why)
    | ok cfg ↦
        if cfg.rate_limiter.use_redis
        then if answers then set_up_redis cfg else exited redis_not_connected
        else set_up_memory now cfg
  ]
