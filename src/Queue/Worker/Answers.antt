-- ===== src/Queue/Worker/Answers.antt =====
-- What becomes of an item that the worker processes, and of a request that it is given.
use llm_request_balancer.Common.{
  ◌≡◌, refl, ◌⊎◌, inl, inr, Bool, true, false, none, some, List, [], ◌∷◌, ◌++◌, String,
}
use llm_request_balancer.Common.Time.{Time}
use llm_request_balancer.Llm.Types.{Request, Response}
use llm_request_balancer.Limiter.Types
use llm_request_balancer.Limiter.Types.{Limiter, LimiterError}
use llm_request_balancer.Queue.Item.{QueueItem, QueueError, Result, ok, err}
use llm_request_balancer.Queue.Memory.{stamp}
use llm_request_balancer.Queue.Registry.{Channel, get, remove}
use llm_request_balancer.Queue.Worker.{
  QueueMethods, Codec, Service, World, WorkerSettings, Times, QueuedRequest, Failure, Reply,
  responded, failed, Exit, finished, panicked,
}
use llm_request_balancer.Queue.Worker.Processing.{
  delayed_item, answer, error_response, retry_later, call_service, check_limit, process_item,
}

-- What the worker relies on from its queue, over the list of items that the queue holds.
pub record IsQueue {Q : Type 0} (queues : QueueMethods Q) (contents : Q → List QueueItem)
    : Type 0 where
  pub accepts :
      (now : Time) (q : Q) (item : QueueItem)
      → (queues.enqueue now q (some item)).1 ≡ ok tt
      → contents (queues.enqueue now q (some item)).0 ≡ contents q ++ stamp now item ∷ []
  pub refuses :
      (now : Time) (q : Q) (item : QueueItem) (e : QueueError)
      → (queues.enqueue now q (some item)).1 ≡ err e
      → contents (queues.enqueue now q (some item)).0 ≡ contents q

module _ {Q L S R : Type 0} (contents : Q → List QueueItem) (settings : WorkerSettings)
    (times : Times) (item : QueueItem) (id : String) (ch : Channel) where
  -- The item was answered once, or went back to the end of the queue.
  pub data Settles (w w' : World Q L S R) : Type 0 where
    answered :
        (response : Response Failure R)
        → w'.sent ≡ w.sent ++ (ch, response) ∷ []
        → w'.registry ≡ remove id w.registry
        → contents w'.queue ≡ contents w.queue
        → Settles w w'
    requeued :
        w'.sent ≡ w.sent
        → w'.registry ≡ w.registry
        → contents w'.queue
          ≡ contents w.queue ++ stamp times.queued_at (delayed_item settings times item) ∷ []
        → Settles w w'

pub Result-cases : (r : Result (Unit {0})) → (r ≡ ok tt) ⊎ ((e : QueueError) × (r ≡ err e))
Result-cases (ok tt') = inl refl
Result-cases (err e) = inr (e, refl)

module _ {Q L S P R : Type 0} (queues : QueueMethods Q) (contents : Q → List QueueItem)
    (lawful : IsQueue queues contents) (settings : WorkerSettings) (times : Times)
    (item : QueueItem) (request : Request P) (id : String) (ch : Channel) where
  retry_later-Settles :
      (w : World Q L S R)
      → Settles contents settings times item id ch w
          (retry_later queues settings times item id request (some ch) w)
  unfolding retry_later answer
  retry_later-Settles w =
      elim (Result-cases
        (queues.enqueue times.queued_at w.queue (some (delayed_item settings times item))).1) [
          | inl e ↦
              requeued (rw (e, retry_later) refl) (rw (e, retry_later) refl)
                (rw (e, retry_later) (lawful.accepts _ _ _ e))
          | inr (x, e) ↦
              answered (error_response request (Failure.queue_failed x)) (rw (e, retry_later) refl)
                (rw (e, retry_later) refl) (rw (e, retry_later) (lawful.refuses _ _ _ x e))
        ]

module _ {Q L S P R : Type 0} (llm : Service S P R) (contents : Q → List QueueItem)
    (settings : WorkerSettings) (times : Times) (item : QueueItem) (request : Request P)
    (id : String) (ch : Channel) where
  -- How a call of the service ends: only a nil response panics.
  abbrev pub Ends : World Q L S R → World Q L S R × Exit → Type 0
  Ends w (w', exit) =
      ((exit ≡ finished) × Settles contents settings times item id ch w w')
      ⊎ ((exit ≡ panicked) × ((llm.process w.service request).2 ≡ responded none))

  call_service-Ends : (w : World Q L S R) → Ends w (call_service llm id request (some ch) w)
  unfolding call_service
  call_service-Ends w = go (llm.process w.service request).2 refl
    where
      go :
          (r : Reply (Response Failure R))
          → (llm.process w.service request).2 ≡ r
          → Ends w (call_service llm id request (some ch) w)
      go (responded none) e = rw (e, call_service) (inr (refl, refl))
      go (responded (some a)) e = rw (e, call_service) (inl (refl, answered a refl refl refl))
      go (failed x) e =
          rw (e, call_service)
            (inl (
              refl,
              answered (error_response (llm.process w.service request).1 (Failure.llm_failed x))
                  refl refl refl,
            ))

module _ {Q L S P R : Type 0} (queues : QueueMethods Q) (limits : Limiter L) (llm : Service S P R)
    (contents : Q → List QueueItem) (lawful : IsQueue queues contents) where
  check_limit-Ends :
      (settings : WorkerSettings) (times : Times) (item : QueueItem) (queued : QueuedRequest P)
      (request : Request P) (ch : Channel) (w : World Q L S R)
      → Ends llm contents settings times item request queued.request_id ch w
          (check_limit queues limits llm settings times item queued request (some ch) w)
  unfolding check_limit
  check_limit-Ends settings times item queued request ch w =
      go (limits.allow times.allowed_at queued.token_cost w.limiter).1 refl
    where
      id : String
      id = queued.request_id

      w' : World Q L S R
      w' = record w { limiter = (limits.allow times.allowed_at queued.token_cost w.limiter).0 }

      same :
          (v : World Q L S R)
          → Settles contents settings times item id ch w' v
          → Settles contents settings times item id ch w v
      same v (answered r a b c) = answered r a b c
      same v (requeued a b c) = requeued a b c

      lift :
          (v : World Q L S R × Exit)
          → Ends llm contents settings times item request id ch w' v
          → Ends llm contents settings times item request id ch w v
      lift v (inl (e, s)) = inl (e, same v.0 s)
      lift v (inr h) = inr h

      go :
          (r : Types.Result Bool)
          → (limits.allow times.allowed_at queued.token_cost w.limiter).1 ≡ r
          → Ends llm contents settings times item request id ch w
              (check_limit queues limits llm settings times item queued request (some ch) w)
      go (Types.err x) e =
          rw (e, check_limit)
            (inl
              (refl, answered (error_response request (Failure.limiter_failed x)) refl refl refl))
      go (Types.ok true) e =
          rw (e, check_limit)
            (lift _ (call_service-Ends llm contents settings times item request id ch w'))
      go (Types.ok false) e =
          rw (e, check_limit)
            (inl (
              refl,
              same _
                  (retry_later-Settles queues contents lawful settings times item request id ch w'),
            ))

  -- No request is lost or answered twice, over a queue that appends what it accepts and stays as it
  -- was where `Enqueue` fails (`IsQueue`): the in-memory queue is one, and the one in Redis while no
  -- answer of the server is lost. Where the item decodes to a request whose response channel is
  -- registered, the worker either sends exactly one response, on that channel, and removes the
  -- registration, with the queue as it was; or it sends nothing, keeps the registration and puts the
  -- item back, delayed, at the end of the queue. Only a nil response of the service makes it panic.
  pub process_item-Ends :
      (codec : Codec P) (settings : WorkerSettings) (times : Times) (item : QueueItem)
      (queued : QueuedRequest P) (request : Request P) (ch : Channel) (w : World Q L S R)
      → codec.unmarshal item.payload ≡ some queued
      → queued.request ≡ some request
      → get queued.request_id w.registry ≡ some ch
      → Ends llm contents settings times item request queued.request_id ch w
          (process_item queues limits llm codec settings times item w)
  unfolding process_item
  process_item-Ends codec settings times item queued request ch w d n g =
      rw (d, process_item)
        (rw (n, process_item)
          (rw (g, process_item) (check_limit-Ends settings times item queued request ch w)))
