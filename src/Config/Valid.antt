-- ===== src/Config/Valid.antt =====
-- What a configuration that is valid is good for.
use llm_request_balancer.Common.{
  ◌≡◌, refl, ◌≢◌, ◌↔◌, ◌⊎◌, inl, inr, false, none, some, [], arith, String, str_eq, str_eq_iff,
  Option-cases,
}
use llm_request_balancer.Llm.Types.{ok}
use llm_request_balancer.Llm.Service.{
  LlmProviderConfig, LlmService, new_service, add_providers, client_timeout,
}
use llm_request_balancer.Config.{Config, ConfigError, validate_config}

-- What `validateConfig` asks for.
abbrev pub IsComplete : {F : Type 0} → Config F → Type 0
IsComplete cfg =
    (cfg.server.port ≢ "")
    × ((cfg.rate_limiter.use_redis ≡ false) ⊎ (cfg.redis.addr ≢ ""))
    × (cfg.llm_provider.default_provider ≢ "")
    × (cfg.llm_provider.default_model ≢ "")

valid_service :
    (cfg : LlmProviderConfig)
    → str_eq cfg.default_provider "" ≡ false
    → str_eq cfg.default_model "" ≡ false
    → (s : LlmService) × (new_service cfg ≡ ok s)
      × (s.default_provider ≡ cfg.default_provider)
      × (s.default_model ≡ cfg.default_model)
unfolding new_service
valid_service cfg p m = (made, rw (p, new_service) (rw (m, new_service) refl), refl, refl)
  where
    made : LlmService
    made = record {
      providers = add_providers cfg.providers [];
      default_provider = cfg.default_provider;
      default_model = cfg.default_model;
      http_timeout = client_timeout cfg;
    }

str_ne : (s t : String) → (s ≢ t) → str_eq s t ≡ false
str_ne s t h = ground (arith, h, str_eq_iff s t)

module _ {F : Type 0} (cfg : Config F) where
  IsComplete-of_valid : validate_config cfg ≡ none → IsComplete cfg
  unfolding validate_config
  IsComplete-of_valid h = (
    ground (arith, h, str_eq_iff cfg.server.port ""),
    ground (arith, h, str_eq_iff cfg.redis.addr "", str_eq_iff cfg.server.port ""),
    ground (arith, h, str_eq_iff cfg.llm_provider.default_provider ""),
    ground (arith, h, str_eq_iff cfg.llm_provider.default_model ""),
  )

  valid_of_complete : IsComplete cfg → validate_config cfg ≡ none
  unfolding validate_config
  valid_of_complete (p, r, d, m) =
      ground (arith, r, str_ne _ _ p, str_ne _ _ d, str_ne _ _ m, str_eq_iff cfg.redis.addr "")

  -- `validateConfig` accepts exactly the configurations with a port, with an address of Redis if the
  -- rate limiter uses Redis, and with a default provider and model; and from one that it accepts
  -- `NewService` makes a service with these defaults.
  pub validate_config-new_service :
      ((validate_config cfg ≡ none) ↔ IsComplete cfg)
      × (((e : ConfigError) × (validate_config cfg ≡ some e))
          ⊎ ((s : LlmService) × (new_service cfg.llm_provider ≡ ok s)
              × (s.default_provider ≡ cfg.llm_provider.default_provider)
              × (s.default_model ≡ cfg.llm_provider.default_model)))
  validate_config-new_service = ((IsComplete-of_valid, valid_of_complete), served)
    where
      served :
          ((e : ConfigError) × (validate_config cfg ≡ some e))
          ⊎ ((s : LlmService) × (new_service cfg.llm_provider ≡ ok s)
              × (s.default_provider ≡ cfg.llm_provider.default_provider)
              × (s.default_model ≡ cfg.llm_provider.default_model))
      served = elim (Option-cases (validate_config cfg)) [
        | inl n ↦
            let (p, r, d, m) = IsComplete-of_valid n in
            inr (valid_service cfg.llm_provider (str_ne _ _ d) (str_ne _ _ m))
        | inr (e, h) ↦ inl (e, h)
      ]
