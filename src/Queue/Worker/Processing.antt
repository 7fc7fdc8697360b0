-- ===== src/Queue/Worker/Processing.antt =====
-- internal/queue/worker.go: `processItem`, from the item to the response.
use llm_request_balancer.Common.{◌+◌, Option, none, some, [], ◌∷◌, ◌++◌, String, if◌then◌else◌}
use llm_request_balancer.Common.Int.{pos}
use llm_request_balancer.Llm.Types.{Request, Response}
use llm_request_balancer.Limiter.Types
use llm_request_balancer.Limiter.Types.{Limiter, LimiterError}
use llm_request_balancer.Queue.Item.{QueueItem, ok, err}
use llm_request_balancer.Queue.Registry.{Channel, get, remove}
use llm_request_balancer.Queue.Worker.{
  QueuedRequest, Failure, limiter_failed, queue_failed, llm_failed, WorkerSettings, QueueMethods,
  Codec, responded, failed, Service, World, Times, Exit, finished, panicked,
}

-- The item that goes back into the queue when the limiter refuses it.
unfoldable pub delayed_item : WorkerSettings → Times → QueueItem → QueueItem
delayed_item settings times item = record {
  id = item.id;
  payload = item.payload;
  metadata = item.metadata;
  priority = item.priority;
  enqueue_time = times.stamped_at;
  process_after = times.delayed_at + settings.retry_delay;
}

unfoldable pub error_response : {P R : Type 0} → Request P → Failure → Response Failure R
error_response request e = record {
  provider_name = request.provider_name;
  model_name = request.model_name;
  result = none;
  tokens_used = pos 0;
  error = some e;
}

module _ {Q L S R : Type 0} where
  -- A send on the response channel, if there is one, and the removal of its entry.
  unfoldable pub answer :
      Option Channel → String → Response Failure R → World Q L S R → World Q L S R
  answer none id response w = w
  answer (some ch) id response w = record w {
    sent = w.sent ++ (ch, response) ∷ [];
    registry = remove id w.registry;
  }

  -- Without a channel the response is dropped. With one, `response.TokensUsed` is read before the
  -- test for a nil response.
  unfoldable pub deliver :
      String → Option Channel → Option (Response Failure R) → World Q L S R → World Q L S R × Exit
  unfolding answer
  deliver id none response w = (w, finished)
  deliver id (some ch) none w = (w, panicked)
  deliver id (some ch) (some response) w = (answer (some ch) id response w, finished)

module _ {Q L S P R : Type 0} (queues : QueueMethods Q) where
  unfoldable pub retry_later :
      WorkerSettings
      → Times
      → QueueItem
      → String
      → Request P
      → Option Channel
      → World Q L S R
      → World Q L S R
  unfolding answer error_response delayed_item
  retry_later settings times item id request ch w =
      let (q, r) =
        queues.enqueue times.queued_at w.queue (some (delayed_item settings times item)) in
      let w' = record w { queue = q } in
      elim r [ ok _ ↦ w' | err e ↦ answer ch id (error_response request (queue_failed e)) w' ]

module _ {Q L S P R : Type 0} (llm : Service S P R) where
  unfoldable pub call_service :
      String → Request P → Option Channel → World Q L S R → World Q L S R × Exit
  unfolding answer error_response deliver
  call_service id request ch w =
      let (s, request', reply) = llm.process w.service request in
      let w' = record w { service = s } in
      elim reply [
        | responded response ↦ deliver id ch response w'
        | failed e ↦ (answer ch id (error_response request' (llm_failed e)) w', finished)
      ]

module _ {Q L S P R : Type 0} (queues : QueueMethods Q) (limits : Limiter L)
    (llm : Service S P R) where
  unfoldable pub check_limit :
      WorkerSettings
      → Times
      → QueueItem
      → QueuedRequest P
      → Request P
      → Option Channel
      → World Q L S R
      → World Q L S R × Exit
  unfolding answer error_response retry_later call_service
  check_limit settings times item queued request ch w =
      let (l, r) = limits.allow times.allowed_at queued.token_cost w.limiter in
      let w' = record w { limiter = l } in
      elim r [
        | Types.err e ↦
            (answer ch queued.request_id (error_response request (limiter_failed e)) w', finished)
        | Types.ok allowed ↦
            if allowed
            then call_service llm queued.request_id request ch w'
            else (retry_later queues settings times item queued.request_id request ch w', finished)
      ]

  -- The `Printf` of the provider's name reads through the request.
  unfoldable pub process_item :
      Codec P → WorkerSettings → Times → QueueItem → World Q L S R → World Q L S R × Exit
  unfolding check_limit
  process_item codec settings times item w = elim (codec.unmarshal item.payload) [
    | none ↦ (w, finished)
    | some queued ↦ elim queued.request [
      | none ↦ (w, panicked)
      | some request ↦
          check_limit settings times item queued request (get queued.request_id w.registry) w
    ]
  ]
