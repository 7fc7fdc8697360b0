-- ===== src/Proxy/Forward.antt =====
-- internal/proxy/reverse_proxy.go: `Forward`. What it restores of the client's request, the body, is
-- what was read of it, so the request is left as it is here.
use llm_request_balancer.Common.{
  ℕ, Bool, true, false, Option, none, some, List, [], ◌∷◌, String, length, if◌then◌else◌,
}
use llm_request_balancer.Common.Int.{ℤ, pos}
use llm_request_balancer.Common.Time.{Time, Duration, sub_time}
use llm_request_balancer.Queue.Item.{Bytes}
use llm_request_balancer.Proxy.Message.{
  Urls, Body, no_body, readable, unreadable, Request, Response, get, RequestModifier,
  ResponseModifier, ReverseProxy,
}
use llm_request_balancer.Proxy.Tokens.{
  codes, index, found, nothing, out_of_range, Scan, scan_tokens,
}

pub record RequestMetrics : Type 0 where
  pub start_time : Time
  pub end_time : Time
  pub duration : Duration
  pub request_size : ℕ
  pub response_size : ℕ
  pub status_code : ℤ
  pub provider_name : String
  pub model_name : String
  pub request_id : String
  pub endpoint_path : String
  pub response_tokens : ℤ

pub data ProxyError : Type 0 where
  invalid_target request_not_read modifier_failed request_failed response_not_read : ProxyError

-- With a response come the metrics that are logged of it.
pub data Outcome : Type 0 where
  returned : Response → RequestMetrics → Outcome
  failed : ProxyError → Outcome
  panicked : Outcome

-- The times of the two calls of `time.Now()`, and what is behind the body in the buffer that
-- `io.ReadAll` gives for the response.
pub record Run : Type 0 where
  pub started_at : Time
  pub ended_at : Time
  pub slack : Bytes

-- The first error ends the loop.
unfoldable pub modify_request :
    {U : Type 0} → List (RequestModifier U) → Request U → Option (Request U)
modify_request [] req = some req
modify_request (modifier ∷ modifiers) req =
    let (req', e) = modifier req in
    elim e [ none ↦ modify_request modifiers req' | some why ↦ none ]

-- An error is logged only, and the loop goes on.
unfoldable pub modify_response : List ResponseModifier → Response → Response
modify_response [] resp = resp
modify_response (modifier ∷ modifiers) resp = modify_response modifiers (modifier resp).0

abbrev is_some : Option ℕ → Bool
is_some none = false
is_some (some i) = true

abbrev pub size_of : Body → ℕ
size_of (readable bytes) = length bytes
size_of _ = 0

abbrev pub is_unreadable : Body → Bool
is_unreadable unreadable = true
is_unreadable _ = false

module _ (canonical : String → String) where
  -- `strings.Contains(resp.Header.Get("Content-Type"), "application/json")`
  unfoldable pub is_json : Response → Bool
  unfolding index get
  is_json resp =
      is_some (index (codes "application/json") (codes (get canonical "Content-Type" resp.header)))

  unfoldable pub response_tokens : Run → Response → Bytes → Scan
  unfolding is_json scan_tokens
  response_tokens run resp bytes = if is_json resp then scan_tokens bytes run.slack else nothing

  -- From the response on. `status_code` is what it has before its modifiers.
  unfoldable pub receive : Run → RequestMetrics → Response → Outcome
  unfolding response_tokens
  receive run metrics resp = elim resp.body [
    | no_body ↦ returned resp metrics
    | unreadable ↦ failed response_not_read
    | readable bytes ↦
        let sized = record metrics { response_size = length bytes } in
        elim (response_tokens run resp bytes) [
          | out_of_range ↦ panicked
          | nothing ↦ returned resp sized
          | found n ↦ returned resp (record sized { response_tokens = n })
        ]
  ]

module _ (canonical : String → String) {U : Type 0} where
  unfoldable pub send : ReverseProxy U → Run → RequestMetrics → Request U → Outcome
  unfolding modify_response receive
  send p run metrics out = elim (p.transport out) [
    | none ↦ failed request_failed
    | some resp ↦
        receive canonical run
          (record metrics {
            end_time = run.ended_at;
            duration = sub_time run.ended_at run.started_at;
            status_code = resp.status_code;
          })
          (modify_response p.response_modifiers resp)
  ]

-- The clone of the client's request, for the target.
unfoldable pub outgoing : {U : Type 0} → Urls U → U → Request U → Request U
outgoing urls base req = record req { url = urls.resolve base req.url; host = urls.host base }

module _ {U : Type 0} (urls : Urls U) (canonical : String → String) where
  -- The metrics when the request is sent.
  unfoldable pub new_metrics : Run → Request U → RequestMetrics
  unfolding get
  new_metrics run req = record {
    start_time = run.started_at;
    end_time = 0;
    duration = pos 0;
    request_size = size_of req.body;
    response_size = 0;
    status_code = pos 0;
    provider_name = get canonical "X-Provider" req.header;
    model_name = get canonical "X-Model" req.header;
    request_id = get canonical "X-Request-ID" req.header;
    endpoint_path = urls.path req.url;
    response_tokens = pos 0;
  }

  -- What the transport is given, if the code comes to that, and what comes of it.
  unfoldable pub forward : ReverseProxy U → Run → String → Request U → Option (Request U) × Outcome
  unfolding outgoing modify_request new_metrics send
  forward p run target req = elim (urls.parse target) [
    | none ↦ (none, failed invalid_target)
    | some base ↦
        if is_unreadable req.body
        then (none, failed request_not_read)
        else elim (modify_request p.request_modifiers (outgoing urls base req)) [
          | none ↦ (none, failed modifier_failed)
          | some out ↦ (some out, send canonical p run (new_metrics run req) out)
        ]
  ]
