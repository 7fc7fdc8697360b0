-- ===== src/Queue/Item.antt =====
-- internal/queue/fifo_queue.go: the items of a queue, its errors and its configuration.
use llm_request_balancer.Common.{ℕ, String, Bool, ◌||◌, not, Option, List}
use llm_request_balancer.Common.Int.{ℤ}
use llm_request_balancer.Common.Dict.{Dict}
use llm_request_balancer.Common.Time.{Time, Duration, is_zero, before}

-- A `[]byte`.
abbrev pub Bytes : Type 0
Bytes = List ℕ

-- The values that the worker puts into a `map[string]interface{}` of metadata.
pub data MetaValue : Type 0 where
  text : String → MetaValue
  number : ℤ → MetaValue

pub record QueueItem : Type 0 where
  pub id : String
  pub payload : Bytes
  pub metadata : Dict MetaValue
  pub priority : ℤ
  pub enqueue_time : Time
  pub process_after : Time

-- The sentinel errors, the unnamed ones of `Enqueue` and `Dequeue`, and `ctx.Err()`.
pub data QueueError : Type 0 where
  queue_full queue_empty backend_unavailable nil_item not_serialized not_deserialized : QueueError
  bad_reply client_required unsupported_type context_done : QueueError

pub data Result {ℓ} (A : Type ℓ) : Type ℓ where
  ok : A → Result A
  err : QueueError → Result A

pub data QueueType : Type 0 where
  in_memory redis other_type : QueueType

pub record RedisOptions : Type 0 where
  pub key_prefix : String
  pub key_expiry : Duration

pub record QueueConfig : Type 0 where
  pub type : QueueType
  pub max_size : ℤ
  pub item_ttl : Duration
  pub redis_options : Option RedisOptions

-- `item.ProcessAfter.IsZero() || !now.Before(item.ProcessAfter)`
unfoldable pub is_ready : Time → QueueItem → Bool
is_ready now item = is_zero item.process_after || not (before now item.process_after)
