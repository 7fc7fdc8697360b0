-- ===== src/Queue/Redis.antt =====
-- internal/queue/fifo_queue.go: `RedisFIFO`. The list in Redis and encoding/json are arguments. The
-- expiry of the list's key, which `Enqueue` renews, is left to the server.
pub mod Accepting
pub mod Serving
pub mod Spinning
use llm_request_balancer.Common.{
  ℕ, ◌*◌, Bool, true, false, not, Option, none, some, List, [], ◌∷◌, String, concat, leb,
  if◌then◌else◌, str_eq,
}
use llm_request_balancer.Common.Link.{Link, answers, no_request, no_answer}
use llm_request_balancer.Common.Int.{pos, or_default, ltb_ℤ}
use llm_request_balancer.Common.Time.{Time, hour, sub_time}
use llm_request_balancer.Queue.Item.{
  Bytes, QueueItem, QueueConfig, RedisOptions, Result, ok, err, queue_full, queue_empty,
  backend_unavailable, nil_item, not_serialized, not_deserialized, client_required, is_ready,
}
use llm_request_balancer.Queue.Memory.{stamp}

-- `LLEN`, `RPUSH`, `LPOP` (what `BLPOP` does on a list that is not empty), `LINDEX 0` and `DEL`.
pub record RedisList (L : Type 0) : Type 0 where
  pub llen : L → ℕ
  pub rpush : Bytes → L → L
  pub lpop : L → Option (Bytes × L)
  pub lindex : L → Option Bytes
  pub del : L → L

-- `json.Marshal` and `json.Unmarshal` on items.
pub record ItemCodec : Type 0 where
  pub marshal : QueueItem → Option Bytes
  pub unmarshal : Bytes → Option QueueItem

pub record RedisFifo : Type 0 where
  pub queue_key : String
  pub max_size : ℕ
  pub item_ttl : ℕ
  pub key_expiry : ℕ

unfoldable pub queue_key_of : Option RedisOptions → String
queue_key_of none = "queue:fifo"
queue_key_of (some o) = if str_eq o.key_prefix "" then "queue:fifo" else concat o.key_prefix "fifo"

unfoldable pub key_expiry_of : Option RedisOptions → ℕ
key_expiry_of none = 72 * hour
key_expiry_of (some o) = or_default o.key_expiry (72 * hour)

unfoldable pub new_redis_queue : QueueConfig → Bool → Result RedisFifo
unfolding queue_key_of key_expiry_of
new_redis_queue c has_client =
    if not has_client
    then err client_required
    else ok (record {
      queue_key = queue_key_of c.redis_options;
      max_size = or_default c.max_size 10000;
      item_ttl = or_default c.item_ttl (24 * hour);
      key_expiry = key_expiry_of c.redis_options;
    })

-- Whether a call arrives at the server, and whether its answer comes back.
abbrev pub arrives : Link → Bool
arrives no_request = false
arrives _ = true

abbrev pub comes_back : Link → Bool
comes_back answers = true
comes_back _ = false

-- The links of the two calls of `Enqueue`, `LLEN` and `RPUSH`.
pub record EnqueueLinks : Type 0 where
  pub llen : Link
  pub rpush : Link

module _ {L : Type 0} (list : RedisList L) (codec : ItemCodec) where
  unfoldable pub push : Link → Bytes → L → L × Result (Unit {0})
  push link b l =
      let l' = if arrives link then list.rpush b l else l in
      if comes_back link then (l', ok tt) else (l', err backend_unavailable)

  unfoldable pub enqueue :
      RedisFifo → EnqueueLinks → Time → Option QueueItem → L → L × Result (Unit {0})
  unfolding push
  enqueue q links now none l = (l, err nil_item)
  enqueue q links now (some item) l =
      if not (comes_back links.llen)
      then (l, err backend_unavailable)
      else if leb q.max_size (list.llen l)
      then (l, err queue_full)
      else elim (codec.marshal (stamp now item)) [
        | none ↦ (l, err not_serialized)
        | some b ↦ push links.rpush b l
      ]

  -- `Peek` looks at the first item alone, and returns it whether it is ready or not.
  unfoldable pub peek : Link → L → Result QueueItem
  peek link l = if not (comes_back link) then err backend_unavailable else elim (list.lindex l) [
    | none ↦ err queue_empty
    | some b ↦ elim (codec.unmarshal b) [ none ↦ err not_deserialized | some item ↦ ok item ]
  ]

-- `time.Since(item.EnqueueTime) > q.itemTTL`
abbrev pub is_expired : RedisFifo → Time → QueueItem → Bool
is_expired q now item = ltb_ℤ (pos q.item_ttl) (sub_time now item.enqueue_time)

-- One pass of `Dequeue`: what other clients did to the list before, the link of `BLPOP`, the times of
-- the two tests and of the call of `Enqueue` that puts an item back, and the links of that call.
pub record Turn (L : Type 0) : Type 0 where
  pub others : L → L
  pub link : Link
  pub since_at : Time
  pub now_at : Time
  pub put_back_at : Time
  pub put_back : EnqueueLinks

pub data Outcome (L : Type 0) : Type 0 where
  running : L → Outcome L
  returned : L → Result QueueItem → Outcome L

module _ {L : Type 0} (list : RedisList L) (codec : ItemCodec) (q : RedisFifo) where
  -- `Dequeue` calls itself behind an item that is expired or not ready. `BLPOP` on an empty list
  -- comes back, if at all, with the end of its timeout.
  unfoldable pub dequeue : List (Turn L) → L → Outcome L
  dequeue [] l = running l
  dequeue (t ∷ ts) l =
      let l' = t.others l in
      elim t.link [
        | no_request ↦ returned l' (err backend_unavailable)
        | no_answer ↦ elim (list.lpop l') [
          | none ↦ returned l' (err backend_unavailable)
          | some (b, rest) ↦ returned rest (err backend_unavailable)
        ]
        | answers ↦ elim (list.lpop l') [
          | none ↦ returned l' (err queue_empty)
          | some (b, rest) ↦ elim (codec.unmarshal b) [
            | none ↦ returned rest (err not_deserialized)
            | some item ↦
                if is_expired q t.since_at item
                then dequeue ts rest
                else if not (is_ready t.now_at item)
                then dequeue ts (enqueue list codec q t.put_back t.put_back_at (some item) rest).0
                else returned rest (ok item)
          ]
        ]
      ]

  unfoldable pub size : Link → L → Result ℕ
  size link l = if comes_back link then ok (list.llen l) else err backend_unavailable

  unfoldable pub clear : Link → L → L × Result (Unit {0})
  clear link l =
      let l' = if arrives link then list.del l else l in
      if comes_back link then (l', ok tt) else (l', err backend_unavailable)
