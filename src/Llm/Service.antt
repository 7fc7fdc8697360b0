-- ===== src/Llm/Service.antt =====
-- internal/llm/provider.go: `Service`, and its `Process` as the interface that the worker calls.
pub mod Routing
use llm_request_balancer.Common.{none, some, List, [], ◌∷◌, map, String, if◌then◌else◌, str_eq}
use llm_request_balancer.Common.Int.{ℤ, pos}
use llm_request_balancer.Common.Dict.{Dict, lookup, insert}
use llm_request_balancer.Common.Float.{Float64}
use llm_request_balancer.Common.Time.{Duration}
use llm_request_balancer.Llm.Types.{
  LlmError, Request, Response, Result, ok, err, provider_not_found, no_default_provider,
  no_default_model,
}
use llm_request_balancer.Llm.Json.{Fields}
use llm_request_balancer.Llm.Provider.{
  ProviderSettings, Provider, new_provider, JsonCodec, Network, estimate_tokens, process_request,
  process_request_async,
}

pub record LlmProviderConfig : Type 0 where
  pub default_provider : String
  pub providers : Dict ProviderSettings
  pub default_model : String

pub record LlmService : Type 0 where
  pub providers : Dict Provider
  pub default_provider : String
  pub default_model : String
  pub http_timeout : Duration

-- The loop of `NewService` over the configured providers.
unfoldable pub add_providers : Dict ProviderSettings → Dict Provider → Dict Provider
add_providers [] providers = providers
add_providers ((name, cfg) ∷ rest) providers =
    add_providers rest (insert name (new_provider name cfg) providers)

-- The timeout of the one HTTP client: a missing provider has the zero value.
unfoldable pub client_timeout : LlmProviderConfig → Duration
client_timeout cfg = elim (lookup cfg.default_provider cfg.providers) [
  | none ↦ pos 0
  | some settings ↦ settings.request_timeout
]

unfoldable pub new_service : LlmProviderConfig → Result LlmService
unfolding add_providers client_timeout
new_service cfg =
    if str_eq cfg.default_provider ""
    then err no_default_provider
    else if str_eq cfg.default_model ""
    then err no_default_model
    else ok (record {
      providers = add_providers cfg.providers [];
      default_provider = cfg.default_provider;
      default_model = cfg.default_model;
      http_timeout = client_timeout cfg;
    })

unfoldable pub get_provider_names : LlmService → List String
get_provider_names s = map (λ (e : String × Provider). e.0) s.providers

unfoldable pub get_provider : LlmService → String → Result Provider
get_provider s name = elim (lookup name s.providers) [
  | none ↦ err provider_not_found
  | some p ↦ ok p
]

-- The names that `Process`, `ProcessAsync` and `EstimateTokens` write into the request.
unfoldable pub fill_defaults : {P : Type 0} → LlmService → Request P → Request P
fill_defaults s req = record req {
  provider_name = if str_eq req.provider_name "" then s.default_provider else req.provider_name;
  model_name = if str_eq req.model_name "" then s.default_model else req.model_name;
}

module _ {F : Type 0} ⦃fl : Float64 F⦄ (json : JsonCodec F) (net : Network F) where
  unfoldable pub process :
      {E : Type 0}
      → LlmService
      → Request (Fields F)
      → Request (Fields F) × Result (Response E (Fields F))
  process s req =
      let filled = fill_defaults s req in
      elim (get_provider s filled.provider_name) [
        | err e ↦ (filled, err e)
        | ok provider ↦ (filled, (process_request json net provider filled).1)
      ]

  -- The response that is sent on the channel.
  unfoldable pub process_async :
      {E : Type 0}
      → (LlmError → E)
      → LlmService
      → Request (Fields F)
      → Request (Fields F) × Response E (Fields F)
  process_async failed s req =
      let filled = fill_defaults s req in
      elim (get_provider s filled.provider_name) [
        | err e ↦ (
          filled,
          record {
            provider_name = filled.provider_name;
            model_name = filled.model_name;
            result = none;
            tokens_used = pos 0;
            error = some (failed e);
          },
        )
        | ok provider ↦ (filled, process_request_async failed json net provider filled)
      ]

module _ {F : Type 0} ⦃fl : Float64 F⦄ (json : JsonCodec F) where
  unfoldable pub estimate : LlmService → Request (Fields F) → Request (Fields F) × Result ℤ
  estimate s req =
      let filled = fill_defaults s req in
      elim (get_provider s filled.provider_name) [
        | err e ↦ (filled, err e)
        | ok provider ↦ (filled, estimate_tokens json provider filled)
      ]
