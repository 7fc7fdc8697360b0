-- ===== src/Server/Starting.antt =====
-- How the start of the server can end.
use text.Mathlib.TextPositions.{slice-append_left}
use llm_request_balancer.Common.{
  str_eq, str_eq_refl, ap, ◌∙◌, ◌≡◌, refl, ◌*◌, ◌⊎◌, inl, inr, Bool, true, false, none, arith,
  String, concat, Bool-cases,
}
use llm_request_balancer.Common.Float.{Float64}
use llm_request_balancer.Common.Time.{Time, second}
use llm_request_balancer.Limiter.Bucket.{new_token_bucket}
use llm_request_balancer.Limiter.Redis.Scripts.{RedisTokenBucket, new_redis_token_bucket}
use llm_request_balancer.Llm.Types as Llms
use llm_request_balancer.Llm.Service.{LlmService, new_service}
use llm_request_balancer.Queue.Memory.{new_in_memory_queue}
use llm_request_balancer.Queue.Redis.{RedisFifo, new_redis_queue}
use llm_request_balancer.Queue.Worker.{new_worker}
use llm_request_balancer.Common.Int.{pos}
use llm_request_balancer.Queue.Creating.{AnyQueue, memory_fifo, redis_fifo, new_queue}
use llm_request_balancer.Config.{Config, validate_config}
use llm_request_balancer.Config.Valid.{validate_config-new_service}
use llm_request_balancer.Config.Loading.{Viper, LoadError, Loaded, ok, err, load_config}
use llm_request_balancer.Server.{
  AnyLimiter, bucket, redis_bucket, Components, serving, exited, not_loaded, redis_not_connected,
  has_colon, address_of, memory_queue_config, memory_limiter_config, serve, set_up_redis,
  set_up_memory, start_server, worker_config,
}

Loaded-cases :
    {F : Type 0} (l : Loaded F)
    → ((why : LoadError) × (l ≡ err why)) ⊎ ((cfg : Config F) × (l ≡ ok cfg))
Loaded-cases (err why) = inl (why, refl)
Loaded-cases (ok cfg) = inr (cfg, refl)

-- What is loaded was validated.
load_config-valid :
    {V F : Type 0} (viper : Viper V F) (path : String) (cfg : Config F)
    → load_config viper path ≡ ok cfg
    → validate_config cfg ≡ none
unfolding load_config
load_config-valid viper path cfg h = ground (arith, h)

address_of-colon : (port : String) → has_colon (address_of port) ≡ true
unfolding address_of concat
address_of-colon port = elim (Bool-cases (has_colon port)) [
  | inl e ↦ rw e e
  | inr e ↦ rw e (ap (λ s. str_eq s ":") (slice-append_left ":" port) ∙ str_eq_refl ":")
]

module _ {F : Type 0} ⦃fl : Float64 F⦄ (cfg : Config F) (now : Time) where
  -- Both the limiter and the queue are in Redis, or both are in memory.
  abbrev pub Shares : AnyLimiter F → AnyQueue → Type 0
  Shares limiter queue =
      ((cfg.rate_limiter.use_redis ≡ true)
        × (rl : RedisTokenBucket F) × (limiter ≡ redis_bucket rl)
        × (q : RedisFifo) × (queue ≡ redis_fifo q))
      ⊎ ((cfg.rate_limiter.use_redis ≡ false)
          × (limiter ≡ bucket (new_token_bucket (memory_limiter_config cfg) now))
          × (queue ≡ memory_fifo (new_in_memory_queue memory_queue_config)))

  -- The components are those of the configuration.
  abbrev pub Fits : Components F → Type 0
  Fits c =
      Shares c.limiter c.queue
      × (new_service cfg.llm_provider ≡ Llms.ok c.service)
      × (has_colon c.address ≡ true)

  service_ready :
      validate_config cfg ≡ none → (s : LlmService) × (new_service cfg.llm_provider ≡ Llms.ok s)
  service_ready valid = elim (validate_config-new_service cfg).1 [
    | inl (why, e) ↦ absurd (ground (arith, valid, e))
    | inr (s, e, p, m) ↦ (s, e)
  ]

  abbrev built : AnyLimiter F → AnyQueue → LlmService → Components F
  built limiter queue service = record {
    limiter = limiter;
    queue = queue;
    service = service;
    worker = new_worker worker_config;
    timeout = pos (300 * second);
    address = address_of cfg.server.port;
    read_timeout = cfg.server.read_timeout;
    write_timeout = cfg.server.write_timeout;
    idle_timeout = cfg.server.idle_timeout;
  }

  serves :
      (limiter : AnyLimiter F) (queue : AnyQueue)
      → validate_config cfg ≡ none
      → Shares limiter queue
      → (c : Components F) × (serve cfg limiter queue ≡ serving c) × Fits c
  unfolding serve
  serves limiter queue valid shared =
      let (s, e) = service_ready valid in
      (built limiter queue s, rw (e, serve) refl, (shared, e, address_of-colon cfg.server.port))

  set_up_redis_serves :
      validate_config cfg ≡ none
      → cfg.rate_limiter.use_redis ≡ true
      → (c : Components F) × (set_up_redis cfg ≡ serving c) × Fits c
  unfolding set_up_redis new_redis_token_bucket new_queue new_redis_queue
  set_up_redis_serves valid r = serves _ _ valid (inl (r, _, refl, _, refl))

  set_up_memory_serves :
      validate_config cfg ≡ none
      → cfg.rate_limiter.use_redis ≡ false
      → (c : Components F) × (set_up_memory now cfg ≡ serving c) × Fits c
  unfolding set_up_memory new_queue
  set_up_memory_serves valid r = serves _ _ valid (inr (r, refl, refl))

module _ {V F : Type 0} ⦃fl : Float64 F⦄ (viper : Viper V F) (path : String) (answers : Bool)
    (now : Time) where
  loaded :
      (cfg : Config F)
      → load_config viper path ≡ ok cfg
      → ((cfg.rate_limiter.use_redis ≡ true)
          × (answers ≡ false)
          × (start_server viper path answers now ≡ exited redis_not_connected))
        ⊎ (((cfg.rate_limiter.use_redis ≡ false) ⊎ (answers ≡ true))
            × (c : Components F) × (start_server viper path answers now ≡ serving c)
            × Fits cfg now c)
  unfolding start_server
  loaded cfg e = elim (Bool-cases cfg.rate_limiter.use_redis) [
    | inl r ↦ elim (Bool-cases answers) [
      | inl a ↦
          let (c, s, f) = set_up_redis_serves cfg now valid r in
          inr (inr a, c, rw (e, start_server) (rw r (rw a s)), f)
      | inr a ↦ inl (r, a, rw (e, start_server) (rw r (rw a refl)))
    ]
    | inr r ↦
        let (c, s, f) = set_up_memory_serves cfg now valid r in
        inr (inl r, c, rw (e, start_server) (rw r s), f)
  ]
    where
      valid : validate_config cfg ≡ none
      valid = load_config-valid viper path cfg e

  -- The server exits at its start if and only if its configuration does not load, or is to use Redis
  -- and Redis does not answer: the constructors of the limiter, the queue and the service accept
  -- what they are given. Otherwise limiter and queue are both in Redis, or both in memory and as
  -- configured; the service is the one of the configuration; and the address has its colon.
  pub start_server_cases :
      ((why : LoadError) × (load_config viper path ≡ err why)
        × (start_server viper path answers now ≡ exited (not_loaded why)))
      ⊎ ((cfg : Config F) × (load_config viper path ≡ ok cfg)
          × (((cfg.rate_limiter.use_redis ≡ true)
                × (answers ≡ false)
                × (start_server viper path answers now ≡ exited redis_not_connected))
              ⊎ (((cfg.rate_limiter.use_redis ≡ false) ⊎ (answers ≡ true))
                  × (c : Components F) × (start_server viper path answers now ≡ serving c)
                  × Fits cfg now c)))
  unfolding start_server
  start_server_cases = elim (Loaded-cases (load_config viper path)) [
    | inl (why, e) ↦ inl (why, e, rw (e, start_server) refl)
    | inr (cfg, e) ↦ inr (cfg, e, loaded cfg e)
  ]
