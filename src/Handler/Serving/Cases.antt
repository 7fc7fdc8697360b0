-- ===== src/Handler/Serving/Cases.antt =====
-- What the handler leaves behind when it starts to wait, and who answers it.
use llm_request_balancer.Common.{
  ◌≡◌, refl, ◌⊎◌, inl, inr, Option, none, some, List, [], ◌∷◌, ◌++◌, arith, Option-cases,
}
use llm_request_balancer.Common.Int.{ℤ}
use llm_request_balancer.Common.Time.{Duration}
use llm_request_balancer.Llm.Types.{Request}
use llm_request_balancer.Limiter.Types.{Limiter}
use llm_request_balancer.Queue.Item.{Bytes, QueueItem}
use llm_request_balancer.Queue.Memory.{stamp}
use llm_request_balancer.Queue.Registry.{get}
use llm_request_balancer.Queue.Worker.{
  Failure, QueueMethods, Codec, Service, World, WorkerSettings, Times, queued_request, request_item,
  enqueue_request,
}
use llm_request_balancer.Queue.Worker.Processing.{process_item}
use llm_request_balancer.Queue.Worker.Answers.{IsQueue, Ends, process_item-Ends}
use llm_request_balancer.Queue.Worker.Requests.{IsCodec, Enqueues, enqueue_request_cases}
use llm_request_balancer.Handler.Requests.{
  LlmRequest, Incoming, Refusal, cost_not_calculated, not_enqueued, accepted, check_request,
  llm_request, request_timeout,
}
use llm_request_balancer.Handler.Requests.Accepting.{IsValid, check_request_iff}
use llm_request_balancer.Handler.Serving.{refusal, Stage, served, waits, Fresh, begin_serving}

module _ {Q L S P R : Type 0} (queues : QueueMethods Q) (codec : Codec P)
    (contents : Q → List QueueItem) (calculate : Request P → Option ℤ)
    (decode : Bytes → Option (LlmRequest P)) (timeout : Duration) (fresh : Fresh)
    (r : Incoming) where
  -- Refused: with an error, the queue as it was, and nothing left in the registry.
  abbrev pub Refuses : World Q L S R → World Q L S R × Stage Failure R → Type 0
  Refuses w (w', stage) =
      (why : Refusal) × (stage ≡ served (refusal why))
      × (contents w'.queue ≡ contents w.queue)
      × ((w'.registry ≡ w.registry) ⊎ (get fresh.id w'.registry ≡ none))

  -- Accepted: the request is valid and priced, the handler waits, and the item and the channel are
  -- where the worker looks for them.
  abbrev pub Accepts : World Q L S R → World Q L S R × Stage Failure R → Type 0
  Accepts w (w', stage) =
      (req : LlmRequest P) × IsValid decode r req
      × (cost : ℤ) × (calculate (llm_request req) ≡ some cost)
      × (stage ≡ waits fresh.channel (request_timeout timeout req.max_wait_time))
      × (get fresh.id w'.registry ≡ some fresh.channel)
      × (bytes : Bytes) × (codec.unmarshal bytes
          ≡ some (queued_request fresh.created_at fresh.id (llm_request req) cost))
      × (contents w'.queue
          ≡ contents w.queue
            ++ stamp fresh.queued_at
                (request_item fresh.stamped_at fresh.id (llm_request req) cost bytes)
              ∷ [])

  -- `ServeHTTP` up to its wait, over a queue that appends what it accepts and stays as it was where
  -- `Enqueue` fails (`IsQueue`: the in-memory queue is one, and the one in Redis while no answer of
  -- the server is lost), and a codec that decodes what it encodes: either an error goes to the client, with the queue as it was and
  -- nothing left in the registry; or the request is valid and priced, its item stands at the end of
  -- the queue, decodes to the request, and its channel is registered.
  pub begin_serving_cases :
      (codec_ok : IsCodec codec) (lawful : IsQueue queues contents) (w : World Q L S R)
      → let x = begin_serving queues codec calculate decode timeout fresh r w in
        Refuses w x ⊎ Accepts w x
  unfolding begin_serving
  begin_serving_cases codec_ok lawful w = elim (check_request_iff decode r).1 [
    | inr (why, e, s) ↦ inl (
      why,
      rw (e, begin_serving) refl,
      rw (e, begin_serving) refl,
      inl (rw (e, begin_serving) refl),
    )
    | inl (req, e) ↦ elim (Option-cases (calculate (llm_request req))) [
      | inl c ↦ inl (
        cost_not_calculated,
        rw (e, begin_serving) (rw (c, begin_serving) refl),
        rw (e, begin_serving) (rw (c, begin_serving) refl),
        inl (rw (e, begin_serving) (rw (c, begin_serving) refl)),
      )
      | inr (cost, c) ↦
          priced req e cost c
            (enqueue_request_cases queues codec contents fresh.created_at fresh.stamped_at
              fresh.queued_at fresh.id (llm_request req) cost fresh.channel codec_ok lawful w).0
    ]
  ]
    where
      priced :
          (req : LlmRequest P)
          → check_request decode r ≡ accepted req
          → (cost : ℤ) → calculate (llm_request req) ≡ some cost
          → Enqueues queues codec contents fresh.created_at fresh.stamped_at fresh.queued_at
              fresh.id
              (llm_request req)
              cost
              fresh.channel
              w
              (enqueue_request queues codec fresh.created_at fresh.stamped_at fresh.queued_at
                fresh.id
                (llm_request req)
                cost
                fresh.channel
                w)
          → Refuses w (begin_serving queues codec calculate decode timeout fresh r w)
            ⊎ Accepts w (begin_serving queues codec calculate decode timeout fresh r w)
      priced req e cost c (inl (k, g, (bytes, d, q))) =
          let v = ((check_request_iff decode r).0 req).0 e in
          inr (
            req,
            v,
            cost,
            c,
            rw (e, begin_serving) (rw (c, begin_serving) (rw (k, begin_serving) refl)),
            rw (e, begin_serving) (rw (c, begin_serving) (rw (k, begin_serving) g)),
            bytes,
            d,
            rw (e, begin_serving) (rw (c, begin_serving) (rw (k, begin_serving) q)),
          )
      priced req e cost c (inr (why, k, g, q)) = inl (
        not_enqueued,
        rw (e, begin_serving) (rw (c, begin_serving) (rw (k, begin_serving) refl)),
        rw (e, begin_serving) (rw (c, begin_serving) (rw (k, begin_serving) q)),
        inr (rw (e, begin_serving) (rw (c, begin_serving) (rw (k, begin_serving) g))),
      )

  module _ (limits : Limiter L) (llm : Service S P R) (settings : WorkerSettings)
      (times : Times) where
    -- A client that waits is not forgotten: the handler's item stands at the end of the queue, and
    -- whenever a worker takes it out, while the channel is registered, the worker sends one response
    -- on that channel, or puts the item back, or panics on a nil response of the service.
    pub begin_serving-Ends :
        (codec_ok : IsCodec codec) (lawful : IsQueue queues contents) (w v : World Q L S R)
        (d : Duration)
        → (begin_serving queues codec calculate decode timeout fresh r w).1 ≡ waits fresh.channel d
        → get fresh.id v.registry ≡ some fresh.channel
        → (req : LlmRequest P) × IsValid decode r req
          × (item : QueueItem) × (contents
                (begin_serving queues codec calculate decode timeout fresh r w).0.queue
              ≡ contents w.queue ++ item ∷ [])
          × Ends llm contents settings times item
              (llm_request req)
              fresh.id
              fresh.channel
              v
              (process_item queues limits llm codec settings times item v)
    unfolding stamp request_item
    begin_serving-Ends codec_ok lawful w v d h g = elim (begin_serving_cases codec_ok lawful w) [
      | inl (why, e, same, left) ↦ absurd (ground (arith, h, e))
      | inr (req, valid, cost, c, s, k, bytes, u, q) ↦
          let item =
            stamp fresh.queued_at
              (request_item fresh.stamped_at fresh.id (llm_request req) cost bytes) in
          (
            req,
            valid,
            item,
            q,
            process_item-Ends queues limits llm contents lawful codec settings times item
                (queued_request fresh.created_at fresh.id (llm_request req) cost) (llm_request req)
                fresh.channel v u refl g,
          )
    ]
