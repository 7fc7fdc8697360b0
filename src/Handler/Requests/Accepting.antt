-- ===== src/Handler/Requests/Accepting.antt =====
-- Which requests the handlers accept, and how long they wait for them.
use llm_request_balancer.Common.{
  ◌≡◌, refl, subst, ◌≢◌, ◌↔◌, ◌⊎◌, inl, inr, true, false, Option, none, some, arith, str_eq,
  str_eq_iff, Bool-cases, Option-cases,
}
use llm_request_balancer.Common.Int.{pos, ltb_ℤ, ◌≤ℤ◌}
use llm_request_balancer.Common.Time.{Duration}
use llm_request_balancer.Queue.Item.{Bytes}
use llm_request_balancer.Handler.Requests.{
  LlmRequest, Incoming, Refusal, method_not_allowed, body_not_read, invalid_format, missing_fields,
  status_of, refused, accepted, lacks_fields, check_request, request_timeout,
}

module _ {P : Type 0} where
  -- What an accepted request is.
  abbrev pub IsValid : (Bytes → Option (LlmRequest P)) → Incoming → LlmRequest P → Type 0
  IsValid decode r req =
      (r.method ≡ "POST")
      × (bytes : Bytes) × (r.body ≡ some bytes)
      × (decode bytes ≡ some req)
      × (req.provider_name ≢ "")
      × (req.model_name ≢ "")
      × (payload : P) × (req.payload ≡ some payload)

  names_of :
      (req : LlmRequest P)
      → lacks_fields req ≡ false
      → (req.provider_name ≢ "")
        × (req.model_name ≢ "")
        × (payload : P) × (req.payload ≡ some payload)
  names_of req h = elim (Option-cases req.payload) [
    | inl n ↦ absurd (ground (arith, h, n))
    | inr (payload, y) ↦ (
      ground (arith, h, str_eq_iff req.provider_name ""),
      ground (arith, h, str_eq_iff req.model_name ""),
      payload,
      y,
    )
  ]

  lacks_none :
      (req : LlmRequest P) (payload : P)
      → req.provider_name ≢ ""
      → req.model_name ≢ ""
      → req.payload ≡ some payload
      → lacks_fields req ≡ false
  lacks_none req payload p m y =
      ground (arith, str_eq_iff req.provider_name "", str_eq_iff req.model_name "", y, p, m)

  accepts_valid :
      (decode : Bytes → Option (LlmRequest P)) (r : Incoming) (req : LlmRequest P)
      → IsValid decode r req
      → check_request decode r ≡ accepted req
  unfolding check_request
  accepts_valid decode r req (post, bytes, b, d, p, m, payload, y) =
      rw ((str_eq_iff r.method "POST").1 post, check_request)
        (rw (b, check_request)
          (rw (d, check_request) (rw (lacks_none req payload p m y, check_request) refl)))

  -- The outcome of the checks: an error, or a valid request.
  abbrev Outcomes : (Bytes → Option (LlmRequest P)) → Incoming → Type 0
  Outcomes decode r =
      ((req : LlmRequest P) × IsValid decode r req)
      ⊎ ((why : Refusal) × (check_request decode r ≡ refused why)
          × ((status_of why ≡ 405) ⊎ (status_of why ≡ 400)))

  outcomes : (decode : Bytes → Option (LlmRequest P)) (r : Incoming) → Outcomes decode r
  unfolding check_request
  outcomes decode r = elim (Bool-cases (str_eq r.method "POST")) [
    | inr f ↦ inr (method_not_allowed, rw (f, check_request) refl, inl refl)
    | inl post ↦ elim (Option-cases r.body) [
      | inl b ↦ inr (body_not_read, rw (post, check_request) (rw (b, check_request) refl), inr refl)
      | inr (bytes, b) ↦ elim (Option-cases (decode bytes)) [
        | inl d ↦ inr (
          invalid_format,
          rw (post, check_request) (rw (b, check_request) (rw (d, check_request) refl)),
          inr refl,
        )
        | inr (req, d) ↦ elim (Bool-cases (lacks_fields req)) [
          | inl l ↦ inr (
            missing_fields,
            rw (post, check_request)
                (rw (b, check_request) (rw (d, check_request) (rw (l, check_request) refl))),
            inr refl,
          )
          | inr l ↦
              let (p, m, payload, y) = names_of req l in
              inl (req, ((str_eq_iff r.method "POST").0 post, bytes, b, d, p, m, payload, y))
        ]
      ]
    ]
  ]

  IsValid-of_accepted :
      (decode : Bytes → Option (LlmRequest P)) (r : Incoming) (req : LlmRequest P)
      → check_request decode r ≡ accepted req
      → IsValid decode r req
  IsValid-of_accepted decode r req h = elim (outcomes decode r) [
    | inr (why, e, s) ↦ absurd (ground (arith, h, e))
    | inl (req', v) ↦
        let same : req' ≡ req = ground (arith, h, accepts_valid decode r req' v) in
        subst (λ q. IsValid decode r q) same v
  ]

  -- The handlers accept exactly the POST requests whose body decodes to a request with a provider,
  -- a model and a payload, and refuse all others with status 405 or 400.
  pub check_request_iff :
      (decode : Bytes → Option (LlmRequest P)) (r : Incoming)
      → ((req : LlmRequest P) → (check_request decode r ≡ accepted req) ↔ IsValid decode r req)
        × (((req : LlmRequest P) × (check_request decode r ≡ accepted req))
            ⊎ ((why : Refusal) × (check_request decode r ≡ refused why)
                × ((status_of why ≡ 405) ⊎ (status_of why ≡ 400))))
  check_request_iff decode r =
      ((λ req. (IsValid-of_accepted decode r req, accepts_valid decode r req)), settled)
    where
      settled :
          ((req : LlmRequest P) × (check_request decode r ≡ accepted req))
          ⊎ ((why : Refusal) × (check_request decode r ≡ refused why)
              × ((status_of why ≡ 405) ⊎ (status_of why ≡ 400)))
      settled = elim (outcomes decode r) [
        | inl (req, v) ↦ inl (req, accepts_valid decode r req v)
        | inr (why, e, s) ↦ inr (why, e, s)
      ]

-- Whatever the client asks for, the wait is at most the handler's and, with a handler's that is
-- positive, positive; and it is at most the client's, if the client's is positive.
pub request_timeout_bounds :
    (timeout : Duration) (wanted : Option Duration)
    → ltb_ℤ (pos 0) timeout ≡ true
    → (request_timeout timeout wanted ≤ℤ timeout)
      × (ltb_ℤ (pos 0) (request_timeout timeout wanted) ≡ true)
      × ((wanted ≡ none)
          ⊎ ((d : Duration) × (wanted ≡ some d)
              × ((d ≤ℤ pos 0) ⊎ (request_timeout timeout wanted ≤ℤ d))))
unfolding request_timeout
request_timeout_bounds timeout none h = (omega arith, h, inl refl)
request_timeout_bounds timeout (some d) h =
    (ground arith, ground arith, inr (d, refl, ground arith))
