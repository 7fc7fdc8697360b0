-- ===== src/Tests/Server.antt =====
-- The start of the server with the configuration of `Tests.Config`.
use llm_request_balancer.Common.{
  Bool, ◌≡◌, refl, ◌⊎◌, true, false, some, [], ◌∷◌, List, concat, str_eq,
}
use llm_request_balancer.Common.Int.{pos}
use llm_request_balancer.Common.Float.{Fixed, fixed_float}
use llm_request_balancer.Config.{Config, validate_config}
use llm_request_balancer.Config.Loading.{Setting, Viper, LoadError, ok, err, load_config}
use llm_request_balancer.Server.{
  Components, serving, exited, not_loaded, redis_not_connected, address_of, start_server,
}
use llm_request_balancer.Server.Starting.{Fits, start_server_cases}
use llm_request_balancer.Tests.Config.{local}

abbrev fixed : Config Fixed
fixed = record {
  server = local.server;
  redis = local.redis;
  rate_limiter = record {
    enabled = true;
    use_redis = false;
    tokens_per_second = record { units = pos 10000000000 };
    bucket_size = pos 100;
    key_prefix = "limiter:";
    wait_timeout = pos 0;
    model_limits = [];
  };
  llm_provider = local.llm_provider;
  logging = local.logging;
}

-- A Viper that keeps what it is told, and finds one file.
abbrev viper : Viper (List Setting) Fixed
viper = record {
  new = [];
  set = λ s v. s ∷ v;
  read_in_config = λ v. some v;
  unmarshal = λ v. some fixed;
}

a_colon : address_of "8080" ≡ ":8080"
unfolding address_of str_eq concat
a_colon = refl

the_file_loads : load_config viper "config.json" ≡ ok fixed
unfolding load_config validate_config str_eq
the_file_loads = refl

start_server_cases_example :
    ((why : LoadError) × (load_config viper "config.json" ≡ err why)
      × (start_server viper "config.json" false 7 ≡ exited (not_loaded why)))
    ⊎ ((cfg : Config Fixed) × (load_config viper "config.json" ≡ ok cfg)
        × (((cfg.rate_limiter.use_redis ≡ true)
              × (◌≡◌ {A = Bool} false false)
              × (start_server viper "config.json" false 7 ≡ exited redis_not_connected))
            ⊎ (((cfg.rate_limiter.use_redis ≡ false) ⊎ (◌≡◌ {A = Bool} false true))
                × (c : Components Fixed) × (start_server viper "config.json" false 7 ≡ serving c)
                × Fits cfg 7 c)))
start_server_cases_example = start_server_cases viper "config.json" false 7
