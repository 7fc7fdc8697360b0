-- ===== src/Queue/Worker.antt =====
-- internal/queue/worker.go: how a request is put into the queue, and how an item is processed.
-- The queue, the limiter and the LLM service are the interfaces that the worker holds; each of them
-- has a state of its own in `World`.
pub mod Processing
pub mod Answers
pub mod Requests
pub mod Loop
pub mod InMemory
pub mod Colliding
pub mod Tracking
use llm_request_balancer.Common.{ℕ, ◌*◌, Option, none, some, List, [], ◌∷◌, String}
use llm_request_balancer.Common.Int.{ℤ, pos, or_default}
use llm_request_balancer.Common.Time.{Time, Duration, millisecond}
use llm_request_balancer.Llm.Types.{LlmError, Request, Response}
use llm_request_balancer.Limiter.Types
use llm_request_balancer.Limiter.Types.{LimiterError}
use llm_request_balancer.Queue.Item.{Bytes, text, number, QueueItem, QueueError, Result, ok, err}
use llm_request_balancer.Queue.Registry.{Channel, ChannelRegistry, register, remove}

pub record WorkerConfig : Type 0 where
  pub polling_interval : Duration
  pub max_concurrent : ℤ
  pub retry_delay : Duration

-- The configuration with the defaults of `NewWorker`.
pub record WorkerSettings : Type 0 where
  pub polling_interval : ℕ
  pub max_concurrent : ℕ
  pub retry_delay : ℕ

unfoldable pub new_worker : WorkerConfig → WorkerSettings
new_worker c = record {
  polling_interval = or_default c.polling_interval (100 * millisecond);
  max_concurrent = or_default c.max_concurrent 10;
  retry_delay = or_default c.retry_delay (500 * millisecond);
}

-- The request is a pointer, which a decoder may leave nil.
pub record QueuedRequest (P : Type 0) : Type 0 where
  pub request : Option (Request P)
  pub token_cost : ℤ
  pub request_id : String
  pub created_at : Time

-- What stands in the `Error` field of a response that the worker makes.
pub data Failure : Type 0 where
  limiter_failed : LimiterError → Failure
  queue_failed : QueueError → Failure
  llm_failed : LlmError → Failure

-- The methods of the interface `Queue` that the worker calls; those of `encoding/json` on
-- `QueuedRequest`; and `llmService.Process`, which fills in names in the request that it is given,
-- and whose response is a pointer.
pub record QueueMethods (Q : Type 0) : Type 0 where
  pub enqueue : Time → Q → Option QueueItem → Q × Result (Unit {0})

pub record Codec (P : Type 0) : Type 0 where
  pub marshal : QueuedRequest P → Option Bytes
  pub unmarshal : Bytes → Option (QueuedRequest P)

pub data Reply (A : Type 0) : Type 0 where
  responded : Option A → Reply A
  failed : LlmError → Reply A

pub record Service (S P R : Type 0) : Type 0 where
  pub process : S → Request P → S × Request P × Reply (Response Failure R)

-- `sent` has the sends on response channels, oldest first.
pub record World (Q L S R : Type 0) : Type 0 where
  pub queue : Q
  pub limiter : L
  pub service : S
  pub registry : ChannelRegistry
  pub sent : List (Channel × Response Failure R)

-- The times that the calls of `time.Now()` in one `processItem` return, in their order: in
-- `Allow`, for `EnqueueTime`, for `ProcessAfter`, and in `Enqueue`.
pub record Times : Type 0 where
  pub allowed_at : Time
  pub stamped_at : Time
  pub delayed_at : Time
  pub queued_at : Time

-- A nil dereference panics.
pub data Exit : Type 0 where
  finished panicked : Exit

-- The item of a new request.
unfoldable pub request_item : {P : Type 0} → Time → String → Request P → ℤ → Bytes → QueueItem
request_item stamped_at id request cost bytes = record {
  id = id;
  payload = bytes;
  metadata =
      ("provider", text request.provider_name)
      ∷ ("model", text request.model_name)
      ∷ ("tokens", number cost)
      ∷ ("request_id", text id)
      ∷ [];
  priority = pos 0;
  enqueue_time = stamped_at;
  process_after = 0;
}

abbrev pub queued_request : {P : Type 0} → Time → String → Request P → ℤ → QueuedRequest P
queued_request created_at id request cost = record {
  request = some request;
  token_cost = cost;
  request_id = id;
  created_at = created_at;
}

module _ {Q L S P R : Type 0} (queues : QueueMethods Q) where
  -- `EnqueueRequest`, with the id that `GenerateShortID` gives.
  unfoldable pub enqueue_request :
      Codec P
      → Time
      → Time
      → Time
      → String
      → Request P
      → ℤ
      → Channel
      → World Q L S R
      → World Q L S R × Result (Unit {0})
  unfolding request_item
  enqueue_request codec created_at stamped_at queued_at id request cost ch w =
      let registered = register id ch w.registry in
      elim (codec.marshal (queued_request created_at id request cost)) [
        | none ↦ (record w { registry = remove id registered }, err QueueError.not_serialized)
        | some bytes ↦
            let (q, r) =
              queues.enqueue queued_at w.queue
                (some (request_item stamped_at id request cost bytes)) in
            elim r [
              | ok _ ↦ (record w { registry = registered; queue = q }, ok tt)
              | err e ↦ (record w { registry = remove id registered; queue = q }, err e)
            ]
      ]
