-- ===== src/Llm/Provider/Received.antt =====
-- Where the response of `ProcessRequest` comes from.
use llm_request_balancer.Common.{
  ℕ, ◌+◌, ◌≤◌, ◌≡◌, refl, sym, ap, ◌∙◌, inl, inr, true, Option, none, some, arith, Bool-cases,
  Option-cases,
}
use llm_request_balancer.Common.Int.{pos}
use llm_request_balancer.Common.Float.{Float64}
use llm_request_balancer.Llm.Types.{
  Request, LlmError, Response, Result, ok, err, model_not_found, not_marshaled, not_unmarshaled,
}
use llm_request_balancer.Llm.Json.{Fields}
use llm_request_balancer.Llm.Tokens.{Bytes}
use llm_request_balancer.Llm.Retry.{
  RetryPolicy, Attempt, canceled, not_created, not_sent, not_read, received, is_success, do_request,
}
use llm_request_balancer.Llm.Retry.Settling.{verdict, do_request-Settles}
use llm_request_balancer.Llm.Provider.{
  Provider, base_of, is_supported, JsonCodec, Network, http_request, with_model, tokens_used,
  process_request,
}

verdict_ok :
    (a : Attempt Bytes) (o : Option Bytes)
    → verdict a ≡ ok o
    → (code : ℕ) × (bytes : Bytes) × (a ≡ received code bytes)
      × (is_success code ≡ true)
      × (o ≡ some bytes)
verdict_ok canceled o h = absurd (ground arith)
verdict_ok not_created o h = absurd (ground arith)
verdict_ok not_sent o h = absurd (ground arith)
verdict_ok (not_read part) o h = absurd (ground arith)
verdict_ok (received code body) o h = elim (Bool-cases (is_success code)) [
  | inl g ↦ (code, body, refl, g, ground (arith, h, g))
  | inr f ↦ absurd (ground (arith, h, f))
]

request_ok :
    {F : Type 0} ⦃fl : Float64 F⦄ (policy : RetryPolicy) (send : ℕ → Attempt Bytes) (random : ℕ → F)
    (m : ℕ) (resp_body : Option Bytes)
    → policy.max_retries ≡ pos m
    → (do_request policy send random).1 ≡ ok resp_body
    → (k : ℕ) × (k ≤ m)
      × (code : ℕ) × (bytes : Bytes) × (send k ≡ received code bytes)
      × (is_success code ≡ true)
      × (resp_body ≡ some bytes)
request_ok policy send random m resp_body e h = elim (do_request-Settles policy send random) [
  | inr (n, e', r) ↦ absurd (ground (arith, e, e'))
  | inl (m', e', (count, le, all, last, r)) ↦
      let same : 0 + count ≡ count = omega arith in
      let (code, bytes, sent, good, got) =
        verdict_ok (send (0 + count)) resp_body (rw (ap (λ x. x.1) r) at h) in
      (count, ground (arith, le, e, e'), code, bytes, sym (ap send same) ∙ sent, good, got)
]

module _ {F : Type 0} ⦃fl : Float64 F⦄ {E : Type 0} (json : JsonCodec F) (net : Network F)
    (provider : Provider) (req : Request (Fields F)) where
  -- The way of a request that succeeds.
  process_ok :
      (response : Response E (Fields F))
      → (process_request json net provider req).1 ≡ ok response
      → (is_supported (base_of provider) req.model_name ≡ true)
        × (body : Bytes) × (json.marshal (some (with_model req)) ≡ some body)
        × (resp_body : Option Bytes) × ((do_request
              (base_of provider).retry_policy
              (net.send (http_request provider body))
              net.random).1
            ≡ ok resp_body)
        × (result : Option (Fields F)) × (json.unmarshal resp_body ≡ some result)
        × (response ≡ record {
          provider_name = (base_of provider).name;
          model_name = req.model_name;
          result = result;
          tokens_used = tokens_used json provider req result;
          error = none;
        })
  unfolding process_request
  process_ok response h = elim (Bool-cases (is_supported (base_of provider) req.model_name)) [
    | inr f ↦ absurd (refuted model_not_found (rw (f, process_request) refl))
    | inl s ↦ elim (Option-cases (json.marshal (some (with_model req)))) [
      | inl bad ↦
          absurd (refuted not_marshaled (rw (s, process_request) (rw (bad, process_request) refl)))
      | inr (body, m) ↦
          let (resp_body, r, result, u, e) = answered s body m (reply body) refl in
          (s, body, m, resp_body, r, result, u, e)
    ]
  ]
    where
      reply : Bytes → Result (Option Bytes)
      reply body =
          (do_request (base_of provider).retry_policy (net.send (http_request provider body))
            net.random).1

      made : Option (Fields F) → Response E (Fields F)
      made result = record {
        provider_name = (base_of provider).name;
        model_name = req.model_name;
        result = result;
        tokens_used = tokens_used json provider req result;
        error = none;
      }

      taken :
          (x : Response E (Fields F))
          → (process_request {E = E} json net provider req).1 ≡ ok x
          → response ≡ x
      taken x c = ground (arith, h, c)

      refuted : (e : LlmError) → (process_request {E = E} json net provider req).1 ≡ err e → ⊥
      refuted e c = ground (arith, h, c)

      answered :
          is_supported (base_of provider) req.model_name ≡ true
          → (body : Bytes) → json.marshal (some (with_model req)) ≡ some body
          → (r : Result (Option Bytes)) → reply body ≡ r
          → (resp_body : Option Bytes) × (reply body ≡ ok resp_body)
            × (result : Option (Fields F)) × (json.unmarshal resp_body ≡ some result)
            × (response ≡ made result)
      answered s body m (err e) r = absurd (
          refuted e
            (rw (s, process_request) (rw (m, process_request) (rw (r, process_request) refl))))
      answered s body m (ok resp_body) r = elim (Option-cases (json.unmarshal resp_body)) [
        | inl u ↦ absurd (
            refuted not_unmarshaled (
              rw (s, process_request)
                (rw (m, process_request) (rw (r, process_request) (rw (u, process_request) refl)))))
        | inr (result, u) ↦ (
          resp_body,
          r,
          result,
          u,
          taken (made result) (
              rw (s, process_request)
                (rw (m, process_request) (rw (r, process_request) (rw (u, process_request) refl)))),
        )
      ]

  -- A response is never made up: where `maxRetries` is not negative and `ProcessRequest` succeeds,
  -- the model is one of the provider's, and one of the first `maxRetries` + 1 attempts to send the
  -- request, with its payload and the model, got a response of class 2xx, whose body, decoded, is
  -- the result. The response has the provider's name, the request's model and no error.
  pub process_request-received :
      (m : ℕ) (response : Response E (Fields F))
      → (base_of provider).retry_policy.max_retries ≡ pos m
      → (process_request json net provider req).1 ≡ ok response
      → (is_supported (base_of provider) req.model_name ≡ true)
        × (body : Bytes) × (json.marshal (some (with_model req)) ≡ some body)
        × (k : ℕ) × (k ≤ m)
        × (code : ℕ) × (bytes : Bytes) × (net.send (http_request provider body) k
            ≡ received code bytes)
        × (is_success code ≡ true)
        × (json.unmarshal (some bytes) ≡ some response.result)
        × (response.provider_name ≡ (base_of provider).name)
        × (response.model_name ≡ req.model_name)
        × (response.error ≡ none)
  process_request-received m response e h =
      let (s, body, encoded, resp_body, replied, result, decoded, made) = process_ok response h in
      let (k, le, code, bytes, sent, good, got) =
        request_ok (base_of provider).retry_policy (net.send (http_request provider body))
          net.random m resp_body e replied in
      (
        s,
        body,
        encoded,
        k,
        le,
        code,
        bytes,
        sent,
        good,
        rw (ap (λ x. x.result) made) (ap json.unmarshal (sym got) ∙ decoded),
        ap (λ x. x.provider_name) made,
        ap (λ x. x.model_name) made,
        ap (λ x. x.error) made,
      )
