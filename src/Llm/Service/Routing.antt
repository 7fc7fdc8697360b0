-- ===== src/Llm/Service/Routing.antt =====
-- Which provider serves a request.
use llm_request_balancer.Common.{
  ◌≡◌, refl, ap, ◌∙◌, ◌⊎◌, inl, inr, true, Option, none, some, [], ◌∷◌, arith, String,
  if◌then◌else◌, str_eq, str_eq_iff, Bool-cases, Option-cases,
}
use llm_request_balancer.Common.Dict.{Dict, lookup, insert, lookup-insert}
use llm_request_balancer.Common.Float.{Float64}
use llm_request_balancer.Llm.Types.{
  Request, Response, Result, ok, err, provider_not_found, no_default_provider, no_default_model,
}
use llm_request_balancer.Llm.Json.{Fields}
use llm_request_balancer.Llm.Provider.{
  ProviderSettings, Provider, new_provider, JsonCodec, Network, estimate_tokens, process_request,
}
use llm_request_balancer.Llm.Service.{
  LlmProviderConfig, LlmService, add_providers, client_timeout, new_service, get_provider,
  fill_defaults, process, estimate,
}

-- A Go map has a key once.
abbrev pub IsMap : Dict ProviderSettings → Type 0
IsMap [] = Unit
IsMap ((name, cfg) ∷ rest) = (lookup name rest ≡ none) × IsMap rest

-- The provider of each configured name, over those that are there.
abbrev built : String → Option ProviderSettings → Option Provider → Option Provider
built name none rest = rest
built name (some cfg) rest = some (new_provider name cfg)

lookup-add_providers :
    (name : String) (cfgs : Dict ProviderSettings) (ps : Dict Provider)
    → IsMap cfgs
    → lookup name (add_providers cfgs ps) ≡ built name (lookup name cfgs) (lookup name ps)
unfolding add_providers lookup
lookup-add_providers name [] ps h = refl
lookup-add_providers name ((k, cfg) ∷ rest) ps h = ground (
  arith,
  lookup-add_providers name rest (insert k (new_provider k cfg) ps) h.1,
  lookup-insert k name (new_provider k cfg) ps,
  str_eq_iff k name,
  h.0,
)

lookup-configured :
    (name : String) (cfgs : Dict ProviderSettings) (ps : Dict Provider)
    → IsMap cfgs
    → ps ≡ add_providers cfgs []
    → lookup name ps ≡ built name (lookup name cfgs) none
unfolding lookup
lookup-configured name cfgs ps h e = ap (λ m. lookup name m) e ∙ lookup-add_providers name cfgs [] h

module _ {F : Type 0} ⦃fl : Float64 F⦄ (E : Type 0) (json : JsonCodec F) (net : Network F) where
  -- A request with its names filled in meets the provider that is configured for it, or none.
  abbrev pub Routed : LlmProviderConfig → LlmService → Request (Fields F) → Type 0
  Routed cfg s req =
      let filled = fill_defaults s req in
      let reply : Request (Fields F) × Result (Response E (Fields F)) = process json net s req in
      ((lookup filled.provider_name cfg.providers ≡ none)
        × (reply ≡ (filled, err provider_not_found))
        × (estimate json s req ≡ (filled, err provider_not_found)))
      ⊎ ((settings : ProviderSettings) × (lookup filled.provider_name cfg.providers ≡ some settings)
          × (let provider = new_provider filled.provider_name settings in
              (reply ≡ (filled, (process_request json net provider filled).1))
              × (estimate json s req ≡ (filled, estimate_tokens json provider filled))))

  routed :
      (cfg : LlmProviderConfig) (s : LlmService) (req : Request (Fields F))
      → IsMap cfg.providers
      → s.providers ≡ add_providers cfg.providers []
      → Routed cfg s req
  unfolding process estimate get_provider
  routed cfg s req h e =
      let name = (fill_defaults s req).provider_name in
      let found = lookup-configured name cfg.providers s.providers h e in
      elim (Option-cases (lookup name cfg.providers)) [
        | inl n ↦
            let missing = found ∙ ap (λ o. built name o none) n in
            inl (n, rw (missing, process) refl, rw (missing, estimate) refl)
        | inr (settings, y) ↦
            let there = found ∙ ap (λ o. built name o none) y in
            inr (settings, y, (rw (there, process) refl, rw (there, estimate) refl))
      ]

  -- `NewService` refuses a configuration without a default provider or a default model. Otherwise
  -- the service's `Process` and `EstimateTokens` fill the defaults into the names that the request
  -- leaves empty, and hand it to the provider that `NewService` made from the settings of that name,
  -- or fail with `ErrProviderNotFound` if none are configured; the default provider need not be.
  pub new_service_routes :
      (cfg : LlmProviderConfig) (req : Request (Fields F))
      → IsMap cfg.providers
      → ((str_eq cfg.default_provider "" ≡ true) × (new_service cfg ≡ err no_default_provider))
        ⊎ ((str_eq cfg.default_model "" ≡ true) × (new_service cfg ≡ err no_default_model))
        ⊎ ((s : LlmService) × (new_service cfg ≡ ok s)
            × ((fill_defaults s req).provider_name
                ≡ (if str_eq req.provider_name "" then cfg.default_provider else req.provider_name))
            × ((fill_defaults s req).model_name
                ≡ (if str_eq req.model_name "" then cfg.default_model else req.model_name))
            × Routed cfg s req)
  unfolding new_service fill_defaults
  new_service_routes cfg req h = elim (Bool-cases (str_eq cfg.default_provider "")) [
    | inl p ↦ inl (p, rw (p, new_service) refl)
    | inr p ↦ elim (Bool-cases (str_eq cfg.default_model "")) [
      | inl q ↦ inr (inl (q, rw (p, new_service) (rw (q, new_service) refl)))
      | inr q ↦ inr (
          inr (
            made,
            rw (p, new_service) (rw (q, new_service) refl),
            refl,
            refl,
            routed cfg made req h refl,
          ))
    ]
  ]
    where
      made : LlmService
      made = record {
        providers = add_providers cfg.providers [];
        default_provider = cfg.default_provider;
        default_model = cfg.default_model;
        http_timeout = client_timeout cfg;
      }
