-- ===== src/Tests/Llm.antt =====
-- Estimates, providers and the service at small inputs, over fixed-point numbers.
use llm_request_balancer.Common.{
  ℕ, ◌*◌, ◌/◌, ◌≤◌, ◌≡◌, refl, ◌⊎◌, true, Option, none, some, [], ◌∷◌, ◌==◌, if◌then◌else◌, str_eq,
}
use llm_request_balancer.Common.Int.{pos}
use llm_request_balancer.Common.Dict.{lookup, insert, delete}
use llm_request_balancer.Common.Float.{Fixed, fixed_float}
use llm_request_balancer.Common.Time.{millisecond, second}
use llm_request_balancer.Llm.Types.{
  LlmError, Request, Response, ok, err, no_default_provider, no_default_model,
}
use llm_request_balancer.Llm.Json.{
  Fields, end, field, text, array, nil, cons, object, number, entries, find,
}
use llm_request_balancer.Queue.Item.{Bytes}
use llm_request_balancer.Llm.Tokens.{openai_estimate, anthropic_estimate}
use llm_request_balancer.Llm.Tokens.Lengths.{openai_bytes, anthropic_bytes, estimates_by_length}
use llm_request_balancer.Llm.Retry.{
  received, is_success, is_retryable_status_code, tries, do_request,
}
use llm_request_balancer.Llm.Provider.{
  ProviderSettings, Provider, base_of, new_base_provider, new_provider, model_set, tokens_used,
  count_under, is_supported, JsonCodec, Network, http_request, with_model, process_request,
}
use llm_request_balancer.Llm.Provider.Received.{process_request-received}
use llm_request_balancer.Llm.Service.{LlmProviderConfig, LlmService, new_service, fill_defaults}
use llm_request_balancer.Llm.Service.Routing.{Routed, new_service_routes}
use llm_request_balancer.Tests.Retry.{busy_once, no_jitter}

abbrev chat : Request (Fields Fixed)
chat = record {
  provider_name = "";
  model_name = "gpt-4o";
  payload = some (
      field "messages"
        (array (cons (object (field "content" (text "hello you") end)) (cons (text "x") nil))) end);
}

estimates_by_length_example :
    let n = openai_bytes (entries chat.payload) in
    (openai_estimate chat ≡ ok (pos (if n == 0 then 1 else n / 4)))
    × (anthropic_estimate chat ≡ ok (pos (anthropic_bytes (entries chat.payload) / 4)))
estimates_by_length_example = estimates_by_length chat

abbrev settings : ProviderSettings
settings = record {
  base_url = "https://api.openai.com/v1";
  api_key = "key";
  request_timeout = pos (30 * second);
  max_retries = pos 2;
  retry_backoff_min = pos (100 * millisecond);
  retry_backoff_max = pos second;
  models = (record { name = "gpt-4o"; token_cost_fn = "" }) ∷ [];
}

abbrev provider : Provider
provider = new_provider "openai" settings

-- Every payload is sent as one byte, and every body but the empty one reports five tokens.
unmarshal : Option Bytes → Option (Option (Fields Fixed))
unmarshal none = none
unmarshal (some []) = none
unmarshal (some (b ∷ bs)) = some (
    some (
      field "usage" (object (field "total_tokens" (number (record { units = pos 5000000000 })) end))
        end))

abbrev json : JsonCodec Fixed
json = record { marshal = λ m. some (1 ∷ []); unmarshal = unmarshal }

abbrev net : Network Fixed
net = record { send = λ r. busy_once; random = no_jitter }

abbrev config : LlmProviderConfig
config = record {
  default_provider = "openai";
  default_model = "gpt-4o";
  providers = ("openai", settings) ∷ [];
}

new_service_routes_example :
    ((str_eq config.default_provider "" ≡ true) × (new_service config ≡ err no_default_provider))
    ⊎ ((str_eq config.default_model "" ≡ true) × (new_service config ≡ err no_default_model))
    ⊎ ((s : LlmService) × (new_service config ≡ ok s)
        × ((fill_defaults s chat).provider_name ≡ (
            if str_eq chat.provider_name "" then config.default_provider else chat.provider_name))
        × ((fill_defaults s chat).model_name
            ≡ (if str_eq chat.model_name "" then config.default_model else chat.model_name))
        × Routed LlmError json net config s chat)
unfolding lookup
new_service_routes_example = new_service_routes LlmError json net config chat (refl, tt)

-- The chat with its names filled in.
abbrev filled : Request (Fields Fixed)
filled = record chat { provider_name = "openai" }

abbrev reported : Fields Fixed
reported =
    field "usage" (object (field "total_tokens" (number (record { units = pos 5000000000 })) end))
      end

abbrev answered : Response LlmError (Fields Fixed)
answered = record {
  provider_name = "openai";
  model_name = "gpt-4o";
  result = some reported;
  tokens_used = pos 5;
  error = none;
}

five_tokens : (process_request json net provider filled).1 ≡ ok answered
unfolding process_request new_provider new_base_provider model_set is_supported lookup insert delete
    str_eq do_request tries is_success is_retryable_status_code unmarshal tokens_used count_under
    find
five_tokens = refl

process_request-received_example :
    (is_supported (base_of provider) filled.model_name ≡ true)
    × (body : Bytes) × (json.marshal (some (with_model filled)) ≡ some body)
    × (k : ℕ) × (k ≤ 2)
    × (code : ℕ) × (bytes : Bytes) × (net.send (http_request provider body) k ≡ received code bytes)
    × (is_success code ≡ true)
    × (json.unmarshal (some bytes) ≡ some answered.result)
    × (answered.provider_name ≡ (base_of provider).name)
    × (answered.model_name ≡ filled.model_name)
    × (answered.error ≡ none)
unfolding new_provider new_base_provider str_eq
process_request-received_example =
    process_request-received json net provider filled 2 answered refl five_tokens
