-- ===== src/Queue/Memory/Bounds.antt =====
-- The calls of `InMemoryFIFO` as steps, its capacity, and its error branches.
use llm_request_balancer.Common.{
  ℕ, suc, ◌≤◌, ◌<◌, ◌≡◌, refl, ◌⊎◌, inl, inr, Option, none, some, List, [], ◌∷◌, ◌++◌, arith,
  length, length-append,
}
use llm_request_balancer.Common.Time.{Time}
use llm_request_balancer.Queue.Item.{QueueItem, QueueConfig, ok, err, queue_full, nil_item}
use llm_request_balancer.Queue.Memory.{
  InMemoryFifo, new_in_memory_queue, sweep, cleanup_expired, enqueue, stamp, dequeue_ready, clear,
}
use llm_request_balancer.Queue.Memory.Serving.{Serves, dequeue_ready-Dequeues}

pub data Call : Type 0 where
  enqueues : Option QueueItem → Call
  dequeues sweeps clears : Call

unfoldable pub step : InMemoryFifo → Time × Call → InMemoryFifo
step q (now, enqueues item) = (enqueue now q item).0
step q (now, dequeues) = (dequeue_ready now q).0
step q (now, sweeps) = cleanup_expired now q
step q (now, clears) = clear q

unfoldable pub run : InMemoryFifo → List (Time × Call) → InMemoryFifo
run q [] = q
run q (c ∷ cs) = run (step q c) cs

Serves-length :
    (now : Time) {xs ys : List QueueItem} {x : QueueItem}
    → Serves now xs x ys
    → length xs ≡ suc (length ys)
Serves-length now (Serves.first h) = refl
Serves-length now (Serves.later h s) = omega (arith, Serves-length now s)

length-sweep-le :
    (now : Time) (ttl : ℕ) (xs : List QueueItem) → length (sweep now ttl xs).0 ≤ length xs
unfolding sweep
length-sweep-le now ttl [] = omega arith
length-sweep-le now ttl (x ∷ xs) = ground (arith, length-sweep-le now ttl xs)

-- Capacity and lifetime are fixed, and the capacity is kept.
pub record IsWithin (q' q : InMemoryFifo) : Type 0 where
  pub same_max : q'.max_size ≡ q.max_size
  pub same_ttl : q'.item_ttl ≡ q.item_ttl
  pub bounded : length q.items ≤ q.max_size → length q'.items ≤ q'.max_size

enqueue-IsWithin :
    (now : Time) (q : InMemoryFifo) (item : Option QueueItem) → IsWithin (enqueue now q item).0 q
unfolding enqueue
enqueue-IsWithin now q none = ground arith
enqueue-IsWithin now q (some item) = ground (arith, length-append q.items (stamp now item ∷ []))

dequeue_ready-IsWithin : (now : Time) (q : InMemoryFifo) → IsWithin (dequeue_ready now q).0 q
dequeue_ready-IsWithin now q = elim (dequeue_ready-Dequeues now q) [
  | inl (all, e) ↦ rw e (ground arith)
  | inr (x, ys, s, e) ↦ rw e (ground (arith, Serves-length now s))
]

cleanup_expired-IsWithin : (now : Time) (q : InMemoryFifo) → IsWithin (cleanup_expired now q) q
unfolding cleanup_expired
cleanup_expired-IsWithin now q = ground (arith, length-sweep-le now q.item_ttl q.items)

step-IsWithin : (q : InMemoryFifo) (c : Time × Call) → IsWithin (step q c) q
unfolding step clear
step-IsWithin q (now, enqueues item) = enqueue-IsWithin now q item
step-IsWithin q (now, dequeues) = dequeue_ready-IsWithin now q
step-IsWithin q (now, sweeps) = cleanup_expired-IsWithin now q
step-IsWithin q (now, clears) = ground arith

run-IsWithin : (q : InMemoryFifo) (cs : List (Time × Call)) → IsWithin (run q cs) q
unfolding run
run-IsWithin q [] = ground arith
run-IsWithin q (c ∷ cs) = ground (arith, step-IsWithin q c, run-IsWithin (step q c) cs)

-- Whatever calls are made, in any order, a queue that `NewInMemoryQueue` made holds at most
-- `MaxSize` items, and its capacity and its lifetime of items are those that it was made with.
pub run-new_within :
    (c : QueueConfig) (cs : List (Time × Call))
    → let q = run (new_in_memory_queue c) cs in
      (length q.items ≤ q.max_size)
      × (q.max_size ≡ (new_in_memory_queue c).max_size)
      × (q.item_ttl ≡ (new_in_memory_queue c).item_ttl)
unfolding new_in_memory_queue
run-new_within c cs = ground (arith, run-IsWithin (new_in_memory_queue c) cs)

-- `Enqueue` refuses a nil item, and an item for a full queue, with the error of that case and with
-- the queue unchanged. Any other item goes to the end, with `EnqueueTime` set if it was not.
pub enqueue_cases :
    (now : Time) (q : InMemoryFifo) (item : QueueItem)
    → (enqueue now q none ≡ (q, err nil_item))
      × (((q.max_size ≤ length q.items) × (enqueue now q (some item) ≡ (q, err queue_full)))
          ⊎ ((length q.items < q.max_size)
              × (enqueue now q (some item)
                  ≡ (record q { items = q.items ++ stamp now item ∷ [] }, ok tt))))
unfolding enqueue
enqueue_cases now q item = ground arith
