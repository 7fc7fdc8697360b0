-- ===== src/Queue/Memory.antt =====
-- internal/queue/fifo_queue.go: `InMemoryFIFO`. A method takes the time that `time.Now()` returns
-- in it. The mutex makes each call one step, but for the wait of `Dequeue` on the condition
-- variable: there the lock is free, and `Wake` has what the call finds when it holds it again.
pub mod Serving
pub mod Bounds
pub mod Order
pub mod Expiry
pub mod Waiting
use llm_request_balancer.Common.{
  ℕ, suc, ◌+◌, ◌*◌, Bool, true, false, Option, none, some, List, [], ◌∷◌, ◌++◌, length, get_elem?,
  take, drop, leb, ltb, if◌then◌else◌,
}
use llm_request_balancer.Common.Int.{pos, or_default, ltb_ℤ}
use llm_request_balancer.Common.Time.{Time, is_zero, sub_time, hour}
use llm_request_balancer.Queue.Item.{
  QueueItem, QueueConfig, Result, ok, err, queue_full, queue_empty, nil_item, context_done,
  is_ready,
}

pub record InMemoryFifo : Type 0 where
  pub items : List QueueItem
  pub max_size : ℕ
  pub item_ttl : ℕ

unfoldable pub new_in_memory_queue : QueueConfig → InMemoryFifo
new_in_memory_queue c = record {
  items = [];
  max_size = or_default c.max_size 1000;
  item_ttl = or_default c.item_ttl (24 * hour);
}

-- `now.Sub(item.EnqueueTime) < q.itemTTL`
unfoldable pub is_live : Time → ℕ → QueueItem → Bool
is_live now ttl item = ltb_ℤ (sub_time now item.enqueue_time) (pos ttl)

-- The loop of `cleanupExpired`: the items that stay, and how many are dropped.
unfoldable pub sweep : Time → ℕ → List QueueItem → List QueueItem × ℕ
sweep now ttl [] = ([], 0)
sweep now ttl (item ∷ items) =
    let (kept, expired) = sweep now ttl items in
    if is_live now ttl item then (item ∷ kept, expired) else (kept, expired + 1)

-- One tick of `cleanupExpired`.
unfoldable pub cleanup_expired : Time → InMemoryFifo → InMemoryFifo
cleanup_expired now q =
    let (kept, expired) = sweep now q.item_ttl q.items in
    if ltb 0 expired then record q { items = kept } else q

-- The item's `EnqueueTime` is filled in if it is not set.
unfoldable pub stamp : Time → QueueItem → QueueItem
stamp now item = record item {
  enqueue_time = if is_zero item.enqueue_time then now else item.enqueue_time;
}

unfoldable pub enqueue : Time → InMemoryFifo → Option QueueItem → InMemoryFifo × Result (Unit {0})
unfolding stamp
enqueue now q none = (q, err nil_item)
enqueue now q (some item) =
    if leb q.max_size (length q.items)
    then (q, err queue_full)
    else (record q { items = q.items ++ stamp now item ∷ [] }, ok tt)

-- The search for `readyIndex`; `none` for -1.
unfoldable pub ready_index : Time → List QueueItem → Option ℕ
ready_index now [] = none
ready_index now (item ∷ items) =
    let later = ready_index now items in
    if is_ready now item then some 0 else elim later [ none ↦ none | some i ↦ some (suc i) ]

-- `append(items[:i], items[i+1:]...)`
unfoldable pub remove_at : ℕ → List QueueItem → List QueueItem
remove_at i items = take i items ++ drop (suc i) items

-- `Dequeue` behind its wait. A missing element would be an index out of range.
unfoldable pub dequeue_ready : Time → InMemoryFifo → InMemoryFifo × Result QueueItem
unfolding ready_index remove_at
dequeue_ready now q = elim (ready_index now q.items) [
  | none ↦ (q, err queue_empty)
  | some i ↦ elim (get_elem? q.items i) [
    | none ↦ (q, err queue_empty)
    | some item ↦ (record q { items = remove_at i q.items }, ok item)
  ]
]

pub record Wake : Type 0 where
  pub queue : InMemoryFifo
  pub now : Time
  pub done : Bool

pub data Outcome : Type 0 where
  blocked : Outcome
  returned : InMemoryFifo → Result QueueItem → Outcome

abbrev return_pair : InMemoryFifo × Result QueueItem → Outcome
return_pair (q, r) = returned q r

abbrev pub is_empty : List QueueItem → Bool
is_empty [] = true
is_empty (item ∷ items) = false

-- The body of `for len(q.items) == 0` behind `q.notEmpty.Wait()`, over the wakes that come.
unfoldable pub await : List Wake → Outcome
await [] = blocked
await (w ∷ ws) =
    let rest = await ws in
    if w.done
    then returned w.queue (err context_done)
    else if is_empty w.queue.items
    then rest
    else return_pair (dequeue_ready w.now w.queue)

unfoldable pub dequeue : Time → InMemoryFifo → List Wake → Outcome
unfolding await
dequeue now q wakes = if is_empty q.items then await wakes else return_pair (dequeue_ready now q)

-- The loop of `Peek`.
unfoldable pub first_ready : Time → List QueueItem → Result QueueItem
first_ready now [] = err queue_empty
first_ready now (item ∷ items) =
    let rest = first_ready now items in if is_ready now item then ok item else rest

unfoldable pub peek : Time → InMemoryFifo → Result QueueItem
unfolding first_ready
peek now q = if is_empty q.items then err queue_empty else first_ready now q.items

unfoldable pub size : InMemoryFifo → ℕ
size q = length q.items

unfoldable pub clear : InMemoryFifo → InMemoryFifo
clear q = record q { items = [] }
