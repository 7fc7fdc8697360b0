-- ===== src/Llm/Provider.antt =====
-- internal/llm/provider.go: `BaseProvider` and the three providers, with the settings of
-- internal/config/config.go. encoding/json and the network are arguments.
pub mod Received
use llm_request_balancer.Common.{
  ℕ, ◌+◌, ◌-◌, ◌/◌, Bool, true, false, Option, none, some, List, [], ◌∷◌, map, String, concat,
  if◌then◌else◌, str_eq,
}
use llm_request_balancer.Common.Int.{ℤ, pos, ◌+ℤ◌}
use llm_request_balancer.Common.Dict.{Dict, lookup, insert}
use llm_request_balancer.Common.Float.{Float64}
use llm_request_balancer.Common.Time.{Duration}
use llm_request_balancer.Llm.Types.{
  LlmError, Request, Response, Result, ok, err, model_not_found, not_marshaled, not_unmarshaled,
}
use llm_request_balancer.Llm.Json.{text, Fields, find, set, as_object, as_number, entries}
use llm_request_balancer.Llm.Tokens.{Bytes, openai_estimate, anthropic_estimate, generic_estimate}
use llm_request_balancer.Llm.Retry.{RetryPolicy, Attempt, do_request}

pub record ModelInfo : Type 0 where
  pub name : String
  pub token_cost_fn : String

pub record ProviderSettings : Type 0 where
  pub base_url : String
  pub api_key : String
  pub request_timeout : Duration
  pub max_retries : ℤ
  pub retry_backoff_min : Duration
  pub retry_backoff_max : Duration
  pub models : List ModelInfo

pub record BaseProvider : Type 0 where
  pub name : String
  pub config : ProviderSettings
  pub models : Dict Bool
  pub retry_policy : RetryPolicy

unfoldable pub model_set : List ModelInfo → Dict Bool → Dict Bool
model_set [] models = models
model_set (model ∷ rest) models = model_set rest (insert model.name true models)

unfoldable pub new_base_provider : String → ProviderSettings → BaseProvider
unfolding model_set
new_base_provider name cfg = record {
  name = name;
  config = cfg;
  models = model_set cfg.models [];
  retry_policy = record {
    max_retries = cfg.max_retries;
    min_backoff = cfg.retry_backoff_min;
    max_backoff = cfg.retry_backoff_max;
  };
}

unfoldable pub supported_models : BaseProvider → List String
supported_models p = map (λ (e : String × Bool). e.0) p.models

-- `p.models[name]`, false for a missing key.
unfoldable pub is_supported : BaseProvider → String → Bool
is_supported p name = elim (lookup name p.models) [ none ↦ false | some b ↦ b ]

-- The providers behind the interface `Provider`.
pub data Provider : Type 0 where
  openai anthropic generic : BaseProvider → Provider

abbrev pub base_of : Provider → BaseProvider
base_of (openai p) = p
base_of (anthropic p) = p
base_of (generic p) = p

-- The `switch` of `NewService`.
unfoldable pub new_provider : String → ProviderSettings → Provider
new_provider name cfg =
    let base = new_base_provider name cfg in
    if str_eq name "openai"
    then openai base
    else if str_eq name "anthropic"
    then anthropic base
    else generic base

pub record HttpRequest : Type 0 where
  pub method : String
  pub url : String
  pub body : Bytes
  pub headers : Dict String

-- `json.Marshal` and `json.Unmarshal` on payloads. The bytes are `none` where the slice is nil, and
-- a decoded map is `none` where it stays nil, as for "null".
pub record JsonCodec (F : Type 0) : Type 0 where
  pub marshal : Option (Fields F) → Option Bytes
  pub unmarshal : Option Bytes → Option (Option (Fields F))

-- The network as one request finds it: what each of its attempts gives, and the random numbers.
pub record Network (F : Type 0) : Type 0 where
  pub send : HttpRequest → ℕ → Attempt Bytes
  pub random : ℕ → F

unfoldable pub headers_of : Provider → Dict String
headers_of (openai p) =
    ("Content-Type", "application/json") ∷ ("Authorization", concat "Bearer " p.config.api_key) ∷ []
headers_of (anthropic p) =
    ("Content-Type", "application/json")
    ∷ ("X-API-Key", p.config.api_key)
    ∷ ("anthropic-version", "2023-06-01")
    ∷ []
headers_of (generic p) =
    ("Content-Type", "application/json") ∷ ("Authorization", concat "Bearer " p.config.api_key) ∷ []

unfoldable pub endpoint_of : Provider → String
endpoint_of (openai p) = concat p.config.base_url "/chat/completions"
endpoint_of (anthropic p) = concat p.config.base_url "/messages"
endpoint_of (generic p) = p.config.base_url

unfoldable pub http_request : Provider → Bytes → HttpRequest
http_request provider body = record {
  method = "POST";
  url = endpoint_of provider;
  body = body;
  headers = headers_of provider;
}

-- The copy of the payload, with the model in it.
unfoldable pub with_model : {F : Type 0} → Request (Fields F) → Fields F
with_model req = set "model" (text req.model_name) (entries req.payload)

module _ {F : Type 0} ⦃fl : Float64 F⦄ where
  unfoldable pub count_under : String → Fields F → ℤ
  count_under key usage = elim (as_number (find key usage)) [ none ↦ pos 0 | some x ↦ fl.to_int x ]

  unfoldable pub estimate_tokens : JsonCodec F → Provider → Request (Fields F) → Result ℤ
  estimate_tokens json (openai p) req = openai_estimate req
  estimate_tokens json (anthropic p) req = anthropic_estimate req
  estimate_tokens json (generic p) req = generic_estimate json.marshal req

  -- The tokens that a response reports; for a generic provider the estimate, 0 if that fails.
  unfoldable pub tokens_used : JsonCodec F → Provider → Request (Fields F) → Option (Fields F) → ℤ
  unfolding count_under estimate_tokens
  tokens_used json (openai p) req result = elim (as_object (find "usage" (entries result))) [
    | none ↦ pos 0
    | some usage ↦ count_under "total_tokens" usage
  ]
  tokens_used json (anthropic p) req result = elim (as_object (find "usage" (entries result))) [
    | none ↦ pos 0
    | some usage ↦ count_under "input_tokens" usage +ℤ count_under "output_tokens" usage
  ]
  tokens_used json (generic p) req result = elim (generic_estimate json.marshal req) [
    | ok n ↦ n
    | err e ↦ pos 0
  ]

  -- `ProcessRequest`, with the sleeps between its attempts.
  unfoldable pub process_request :
      {E : Type 0}
      → JsonCodec F
      → Network F
      → Provider
      → Request (Fields F)
      → List Duration × Result (Response E (Fields F))
  process_request json net provider req =
      let base = base_of provider in
      if is_supported base req.model_name
      then elim (json.marshal (some (with_model req))) [
        | none ↦ ([], err not_marshaled)
        | some body ↦
            let (sleeps, reply) =
              do_request base.retry_policy (net.send (http_request provider body)) net.random in
            elim reply [
              | err e ↦ (sleeps, err e)
              | ok resp_body ↦ elim (json.unmarshal resp_body) [
                | none ↦ (sleeps, err not_unmarshaled)
                | some result ↦ (
                  sleeps,
                  ok (record {
                    provider_name = base.name;
                    model_name = req.model_name;
                    result = result;
                    tokens_used = tokens_used json provider req result;
                    error = none;
                  }),
                )
              ]
            ]
      ]
      else ([], err model_not_found)

  -- The response that the goroutine of `ProcessRequestAsync` sends.
  unfoldable pub process_request_async :
      {E : Type 0}
      → (LlmError → E)
      → JsonCodec F
      → Network F
      → Provider
      → Request (Fields F)
      → Response E (Fields F)
  process_request_async failed json net provider req =
      elim (process_request json net provider req).1 [
        | ok response ↦ response
        | err e ↦ record {
          provider_name = (base_of provider).name;
          model_name = req.model_name;
          result = none;
          tokens_used = pos 0;
          error = some (failed e);
        }
      ]
