-- ===== src/Queue/Memory/Expiry.antt =====
-- The clean-up of `InMemoryFIFO`, and the wait of its `Dequeue`.
use llm_request_balancer.Common.{
  ℕ, ◌≡◌, refl, ◌⊎◌, true, false, List, [], ◌∷◌, ◌++◌, arith, keep, All,
}
use mathlib.Core.List.{append-nil}
use llm_request_balancer.Common.Time.{Time}
use llm_request_balancer.Queue.Item.{QueueItem, err, context_done}
use llm_request_balancer.Queue.Memory.{
  InMemoryFifo, sweep, cleanup_expired, is_live, Wake, blocked, returned, await, dequeue,
  dequeue_ready, is_empty,
}

sweep-keep :
    (now : Time) (ttl : ℕ) (xs : List QueueItem) → (sweep now ttl xs).0 ≡ keep (is_live now ttl) xs
unfolding sweep
sweep-keep now ttl [] = refl
sweep-keep now ttl (x ∷ xs) = ground (arith, sweep-keep now ttl xs)

sweep_none :
    (now : Time) (ttl : ℕ) (xs : List QueueItem)
    → (sweep now ttl xs).1 ≡ 0
    → (sweep now ttl xs).0 ≡ xs
unfolding sweep
sweep_none now ttl [] h = refl
sweep_none now ttl (x ∷ xs) h = ground (arith, sweep_none now ttl xs)

-- A clean-up leaves exactly the items that have been in the queue for less than `itemTTL`, in
-- their order, on both of its branches, and changes nothing else.
pub cleanup_expired-keep :
    (now : Time) (q : InMemoryFifo)
    → cleanup_expired now q ≡ record q { items = keep (is_live now q.item_ttl) q.items }
unfolding cleanup_expired
cleanup_expired-keep now q =
    ground (arith, sweep-keep now q.item_ttl q.items, sweep_none now q.item_ttl q.items)

-- A wake that changes nothing for the call: no item, and the context not seen as done.
abbrev pub IsIdle : Wake → Type 0
IsIdle w = (w.done ≡ false) × (w.queue.items ≡ [])

await_idle : (idle ws : List Wake) → All IsIdle idle → await (idle ++ ws) ≡ await ws
unfolding await
await_idle [] ws h = refl
await_idle (w ∷ idle) ws h = ground (arith, await_idle idle ws h.1)

-- On an empty queue `Dequeue` returns neither an item nor `ErrQueueEmpty` by itself: it sleeps
-- through every wake that finds the queue empty and the context live. The first other wake ends
-- the call: with the error of the context if the context is seen as done, even if there is an
-- item, and otherwise as a call does that finds this queue.
pub dequeue_empty :
    (now : Time) (q : InMemoryFifo) (idle ws : List Wake) (w : Wake)
    → q.items ≡ []
    → All IsIdle idle
    → let r = dequeue now q (idle ++ w ∷ ws) in
      (dequeue now q idle ≡ blocked)
      × (((w.done ≡ true) × (r ≡ returned w.queue (err context_done)))
          ⊎ ((w.done ≡ false)
              × (is_empty w.queue.items ≡ false)
              × (let (q', served) = dequeue_ready w.now w.queue in r ≡ returned q' served))
          ⊎ ((w.done ≡ false) × (is_empty w.queue.items ≡ true) × (r ≡ dequeue now q ws)))
unfolding dequeue await
dequeue_empty now q idle ws w e h = (
  ground (arith, await_idle idle [] h, append-nil idle),
  ground (arith, await_idle idle (w ∷ ws) h),
)
