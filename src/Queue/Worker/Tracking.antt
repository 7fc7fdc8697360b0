-- ===== src/Queue/Worker/Tracking.antt =====
-- internal/queue/worker.go: `EnqueueRequest`, `Dequeue` and `processItem`, any number of each at once,
-- as the steps of one system. A step is one access to the registry, the queue, the limiter, the
-- service or a response channel.
pub mod Counting
pub mod Quietly
pub mod Registered
pub mod Removing
pub mod Registering
pub mod Replying
pub mod Reaching
pub mod Whole
pub mod InMemory
pub mod InRedis
use llm_request_balancer.Common.{
  ℕ, suc, ◌≡◌, ◌≢◌, Option, none, some, true, false, List, [], ◌∷◌, ◌++◌, String, ◌==◌,
  if◌then◌else◌,
}
use llm_request_balancer.Common.Time.{Time}
use llm_request_balancer.Llm.Types.{Request, Response}
use llm_request_balancer.Limiter.Types
use llm_request_balancer.Limiter.Types.{Limiter, LimiterError}
use llm_request_balancer.Queue.Item.{Bytes, QueueItem, QueueError, ok, err}
use llm_request_balancer.Queue.Registry.{Channel, register, get, remove}
use llm_request_balancer.Queue.Worker.{
  QueueMethods, Codec, Service, World, WorkerSettings, Times, QueuedRequest, Failure,
  limiter_failed, queue_failed, llm_failed, responded, failed, queued_request, request_item,
}
use llm_request_balancer.Queue.Worker.Processing.{delayed_item, error_response}
use llm_request_balancer.Queue.Worker.Colliding.{Submission}
use llm_request_balancer.Llm.Types as Llms

-- A call of `EnqueueRequest`: behind `Register`; and before the `Remove` of an error.
pub data Entering (P : Type 0) : Type 0 where
  entering : String → Submission P → Entering P
  failing : String → Entering P

-- An item that is out of the queue: in `Dequeue`, or in a `processItem` before `Get`; before `Allow`;
-- before `Process`; before the `Enqueue` of a refused request; before the send of a response; and
-- before the `Remove` behind it.
pub data Job (P R : Type 0) : Type 0 where
  taken : QueueItem → Job P R
  looked refused : QueueItem → QueuedRequest P → Request P → Option Channel → Job P R
  calling : QueuedRequest P → Request P → Option Channel → Job P R
  replying : String → Option Channel → Response Failure R → Job P R
  removing : String → Job P R

-- `lost` has the items that the queue has discarded.
pub record System (Q L S P R : Type 0) : Type 0 where
  pub world : World Q L S R
  pub clients : List (Entering P)
  pub jobs : List (Job P R)
  pub lost : List QueueItem

-- How many responses were sent on the channel.
unfoldable pub sends : {R : Type 0} → Channel → List (Channel × Response Failure R) → ℕ
sends ch [] = 0
sends ch ((c, response) ∷ rest) = if c == ch then suc (sends ch rest) else sends ch rest

abbrev pub item_of : {P : Type 0} → String → Submission P → Bytes → QueueItem
item_of id sub bytes = request_item sub.stamped_at id sub.request sub.cost bytes

abbrev pub marshaled : {P : Type 0} → Codec P → String → Submission P → Option Bytes
marshaled codec id sub = codec.marshal (queued_request sub.created_at id sub.request sub.cost)

module _ {Q L S P R : Type 0} (queues : QueueMethods Q) (contents : Q → List QueueItem)
    (limits : Limiter L) (llm : Service S P R) (codec : Codec P) (settings : WorkerSettings) where
  -- The id and the channel of a new request are in no use. An item that is taken out goes to
  -- `processItem`, or back to the end of the queue (the `Dequeue` of Redis, before its time), or is
  -- lost: the clean-up and the `Dequeue` of Redis discard it where it has expired, its put-back fails,
  -- the answer of Redis with it is lost, or the key of the list in Redis expires. The service is called
  -- in the step in which it returns. The queue in Redis may drop data that are no item (`skips`). A nil
  -- dereference panics, and ends the program: it has no step.
  pub data Step (s : System Q L S P R) : System Q L S P R → Type 0 where
    registers :
        (id : String) (sub : Submission P)
        → get id s.world.registry ≡ none
        → ((other : String) → get other s.world.registry ≢ some sub.channel)
        → sends sub.channel s.world.sent ≡ 0
        → Step s (record s {
          world = record (s.world) { registry = register id sub.channel s.world.registry };
          clients = entering id sub ∷ s.clients;
        })
    not_serialized :
        (id : String) (sub : Submission P) (xs ys : List (Entering P))
        → s.clients ≡ xs ++ entering id sub ∷ ys
        → marshaled codec id sub ≡ none
        → Step s (record s { clients = xs ++ failing id ∷ ys })
    enqueued :
        (id : String) (sub : Submission P) (bytes : Bytes) (xs ys : List (Entering P))
        → s.clients ≡ xs ++ entering id sub ∷ ys
        → marshaled codec id sub ≡ some bytes
        → (queues.enqueue sub.queued_at s.world.queue (some (item_of id sub bytes))).1 ≡ ok tt
        → Step s (record s {
          world = record (s.world) {
            queue = (queues.enqueue sub.queued_at s.world.queue (some (item_of id sub bytes))).0;
          };
          clients = xs ++ ys;
        })
    not_enqueued :
        (id : String) (sub : Submission P) (bytes : Bytes) (e : QueueError)
        (xs ys : List (Entering P))
        → s.clients ≡ xs ++ entering id sub ∷ ys
        → marshaled codec id sub ≡ some bytes
        → (queues.enqueue sub.queued_at s.world.queue (some (item_of id sub bytes))).1 ≡ err e
        → Step s (record s {
          world = record (s.world) {
            queue = (queues.enqueue sub.queued_at s.world.queue (some (item_of id sub bytes))).0;
          };
          clients = xs ++ failing id ∷ ys;
        })
    cleans_up :
        (id : String) (xs ys : List (Entering P))
        → s.clients ≡ xs ++ failing id ∷ ys
        → Step s (record s {
          world = record (s.world) { registry = remove id s.world.registry };
          clients = xs ++ ys;
        })
    takes_out :
        (item : QueueItem) (q : Q) (xs ys : List QueueItem)
        → contents s.world.queue ≡ xs ++ item ∷ ys
        → contents q ≡ xs ++ ys
        → Step s (record s { world = record (s.world) { queue = q }; jobs = taken item ∷ s.jobs })
    skips :
        (q : Q)
        → contents q ≡ contents s.world.queue
        → Step s (record s { world = record (s.world) { queue = q } })
    puts_back :
        (item new : QueueItem) (q : Q) (xs ys : List (Job P R))
        → s.jobs ≡ xs ++ taken item ∷ ys
        → new.payload ≡ item.payload
        → contents q ≡ contents s.world.queue ++ new ∷ []
        → Step s (record s { world = record (s.world) { queue = q }; jobs = xs ++ ys })
    loses :
        (item : QueueItem) (xs ys : List (Job P R))
        → s.jobs ≡ xs ++ taken item ∷ ys
        → Step s (record s { jobs = xs ++ ys; lost = item ∷ s.lost })
    undecodable :
        (item : QueueItem) (xs ys : List (Job P R))
        → s.jobs ≡ xs ++ taken item ∷ ys
        → codec.unmarshal item.payload ≡ none
        → Step s (record s { jobs = xs ++ ys })
    looks_up :
        (item : QueueItem) (queued : QueuedRequest P) (request : Request P) (xs ys : List (Job P R))
        → s.jobs ≡ xs ++ taken item ∷ ys
        → codec.unmarshal item.payload ≡ some queued
        → queued.request ≡ some request
        → Step s (record s {
          jobs = xs ++ looked item queued request (get queued.request_id s.world.registry) ∷ ys;
        })
    allows :
        (item : QueueItem) (queued : QueuedRequest P) (request : Request P) (ch : Option Channel)
        (now : Time) (xs ys : List (Job P R))
        → s.jobs ≡ xs ++ looked item queued request ch ∷ ys
        → (limits.allow now queued.token_cost s.world.limiter).1 ≡ Types.ok true
        → Step s (record s {
          world = record (s.world) {
            limiter = (limits.allow now queued.token_cost s.world.limiter).0;
          };
          jobs = xs ++ calling queued request ch ∷ ys;
        })
    refuses :
        (item : QueueItem) (queued : QueuedRequest P) (request : Request P) (ch : Option Channel)
        (now : Time) (xs ys : List (Job P R))
        → s.jobs ≡ xs ++ looked item queued request ch ∷ ys
        → (limits.allow now queued.token_cost s.world.limiter).1 ≡ Types.ok false
        → Step s (record s {
          world = record (s.world) {
            limiter = (limits.allow now queued.token_cost s.world.limiter).0;
          };
          jobs = xs ++ refused item queued request ch ∷ ys;
        })
    limiter_fails :
        (item : QueueItem) (queued : QueuedRequest P) (request : Request P) (ch : Option Channel)
        (now : Time) (e : LimiterError) (xs ys : List (Job P R))
        → s.jobs ≡ xs ++ looked item queued request ch ∷ ys
        → (limits.allow now queued.token_cost s.world.limiter).1 ≡ Types.err e
        → Step s (record s {
          world = record (s.world) {
            limiter = (limits.allow now queued.token_cost s.world.limiter).0;
          };
          jobs =
              xs ++ replying queued.request_id ch (error_response request (limiter_failed e)) ∷ ys;
        })
    responds :
        (queued : QueuedRequest P) (request : Request P) (ch : Option Channel)
        (response : Response Failure R) (xs ys : List (Job P R))
        → s.jobs ≡ xs ++ calling queued request ch ∷ ys
        → (llm.process s.world.service request).2 ≡ responded (some response)
        → Step s (record s {
          world = record (s.world) { service = (llm.process s.world.service request).0 };
          jobs = xs ++ replying queued.request_id ch response ∷ ys;
        })
    service_fails :
        (queued : QueuedRequest P) (request : Request P) (ch : Option Channel) (e : Llms.LlmError)
        (xs ys : List (Job P R))
        → s.jobs ≡ xs ++ calling queued request ch ∷ ys
        → (llm.process s.world.service request).2 ≡ failed e
        → Step s (record s {
          world = record (s.world) { service = (llm.process s.world.service request).0 };
          jobs =
              xs
              ++ replying queued.request_id ch
                  (error_response (llm.process s.world.service request).1 (llm_failed e))
                ∷ ys;
        })
    responds_nil :
        (queued : QueuedRequest P) (request : Request P) (xs ys : List (Job P R))
        → s.jobs ≡ xs ++ calling queued request none ∷ ys
        → (llm.process s.world.service request).2 ≡ responded none
        → Step s (record s {
          world = record (s.world) { service = (llm.process s.world.service request).0 };
          jobs = xs ++ ys;
        })
    requeues :
        (item : QueueItem) (queued : QueuedRequest P) (request : Request P) (ch : Option Channel)
        (times : Times) (xs ys : List (Job P R))
        → s.jobs ≡ xs ++ refused item queued request ch ∷ ys
        → (queues.enqueue times.queued_at s.world.queue (some (delayed_item settings times item))).1
          ≡ ok tt
        → Step s (record s {
          world = record (s.world) {
            queue =
                (queues.enqueue times.queued_at s.world.queue
                  (some (delayed_item settings times item))).0;
          };
          jobs = xs ++ ys;
        })
    not_requeued :
        (item : QueueItem) (queued : QueuedRequest P) (request : Request P) (ch : Option Channel)
        (times : Times) (e : QueueError) (xs ys : List (Job P R))
        → s.jobs ≡ xs ++ refused item queued request ch ∷ ys
        → (queues.enqueue times.queued_at s.world.queue (some (delayed_item settings times item))).1
          ≡ err e
        → Step s (record s {
          world = record (s.world) {
            queue =
                (queues.enqueue times.queued_at s.world.queue
                  (some (delayed_item settings times item))).0;
          };
          jobs = xs ++ replying queued.request_id ch (error_response request (queue_failed e)) ∷ ys;
        })
    drops_reply :
        (id : String) (response : Response Failure R) (xs ys : List (Job P R))
        → s.jobs ≡ xs ++ replying id none response ∷ ys
        → Step s (record s { jobs = xs ++ ys })
    replies :
        (id : String) (ch : Channel) (response : Response Failure R) (xs ys : List (Job P R))
        → s.jobs ≡ xs ++ replying id (some ch) response ∷ ys
        → Step s (record s {
          world = record (s.world) { sent = s.world.sent ++ (ch, response) ∷ [] };
          jobs = xs ++ removing id ∷ ys;
        })
    removes :
        (id : String) (xs ys : List (Job P R))
        → s.jobs ≡ xs ++ removing id ∷ ys
        → Step s (record s {
          world = record (s.world) { registry = remove id s.world.registry };
          jobs = xs ++ ys;
        })

  pub data Reach (s : System Q L S P R) : System Q L S P R → Type 0 where
    here : Reach s s
    next : {t u : System Q L S P R} → Reach s t → Step t u → Reach s u
