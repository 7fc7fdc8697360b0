-- ===== src/Handler/Serving.antt =====
-- internal/handler: `ServeHTTP` of both handlers behind their checks. The wait for the worker
-- parts the first into two: `begin_serving` up to its `select`, and `end_serving` behind it.
pub mod Cases
pub mod Answering
use llm_request_balancer.Common.{ℕ, Option, none, some, String}
use llm_request_balancer.Common.Int.{ℤ}
use llm_request_balancer.Common.Time.{Time, Duration}
use llm_request_balancer.Llm.Types.{LlmError, Request, Response}
use llm_request_balancer.Llm.Types
use llm_request_balancer.Queue.Item.{Bytes, ok, err}
use llm_request_balancer.Queue.Registry.{Channel}
use llm_request_balancer.Queue.Worker.{Failure, QueueMethods, Codec, World, enqueue_request}
use llm_request_balancer.Handler.Requests.{
  LlmRequest, Incoming, Refusal, status_of, cost_not_calculated, not_enqueued, nil_response,
  timed_out, refused, accepted, check_request, llm_request, request_timeout,
}

-- What goes to the client: a call of `http.Error`; the error of a response, with status 500; or
-- status 200, the headers with the tokens and the request's id, and the response as JSON.
pub data Served (E R : Type 0) : Type 0 where
  refusal : Refusal → Served E R
  provider_failed : E → Served E R
  success : String → ℤ → Response E R → Served E R

abbrev pub served_status : {E R : Type 0} → Served E R → ℕ
served_status (refusal why) = status_of why
served_status (provider_failed e) = 500
served_status (success id tokens response) = 200

-- The handler waits on its channel, at most so long.
pub data Stage (E R : Type 0) : Type 0 where
  served : Served E R → Stage E R
  waits : Channel → Duration → Stage E R

-- What ends the `select`.
pub data Arrival (E R : Type 0) : Type 0 where
  response_came : Option (Response E R) → Arrival E R
  context_done : Arrival E R

-- The times of `EnqueueRequest` and the id that it makes, and the new channel.
pub record Fresh : Type 0 where
  pub created_at : Time
  pub stamped_at : Time
  pub queued_at : Time
  pub id : String
  pub channel : Channel

module _ {Q L S P R : Type 0} (queues : QueueMethods Q) (codec : Codec P)
    (calculate : Request P → Option ℤ) (decode : Bytes → Option (LlmRequest P)) where
  unfoldable pub begin_serving :
      Duration → Fresh → Incoming → World Q L S R → World Q L S R × Stage Failure R
  begin_serving timeout fresh r w = elim (check_request decode r) [
    | refused why ↦ (w, served (refusal why))
    | accepted req ↦ elim (calculate (llm_request req)) [
      | none ↦ (w, served (refusal cost_not_calculated))
      | some cost ↦
          let (w', e) =
            enqueue_request queues codec fresh.created_at fresh.stamped_at fresh.queued_at fresh.id
              (llm_request req) cost fresh.channel w in
          elim e [
            | err why ↦ (w', served (refusal not_enqueued))
            | ok _ ↦ (w', waits fresh.channel (request_timeout timeout req.max_wait_time))
          ]
    ]
  ]

module _ {E R : Type 0} where
  -- `id` is the handler's own request id, another than that of the worker.
  unfoldable pub end_serving : String → Arrival E R → Served E R
  end_serving id context_done = refusal timed_out
  end_serving id (response_came none) = refusal nil_response
  end_serving id (response_came (some response)) = elim response.error [
    | some e ↦ provider_failed e
    | none ↦ success id response.tokens_used response
  ]

-- `DirectLLMRequestHandler`; `process` is that of the service.
unfoldable pub serve_directly :
    {P R : Type 0}
    → (Bytes → Option (LlmRequest P))
    → (Request P → Types.Result (Response LlmError R))
    → String
    → Incoming
    → Served LlmError R
serve_directly decode process id r = elim (check_request decode r) [
  | refused why ↦ refusal why
  | accepted req ↦ elim (process (llm_request req)) [
    | Types.err e ↦ provider_failed e
    | Types.ok response ↦ success id response.tokens_used response
  ]
]
