-- ===== src/Queue/Memory/Order.antt =====
-- The order in which `InMemoryFIFO` keeps and hands out its items.
use mathlib.Core.List.{append_assoc, append-nil}
use llm_request_balancer.Common.{
  ℕ, zero, suc, ◌+◌, ◌≤◌, ◌≡◌, refl, ◌∙◌, inl, inr, true, false, none, some, List, [], ◌∷◌, ◌++◌,
  map, arith, length, length-append, length-map, All, ltb, leb, if◌then◌else◌, Bool-cases,
}
use llm_request_balancer.Common.Time.{Time}
use llm_request_balancer.Queue.Item.{QueueItem, ok, err, is_ready}
use llm_request_balancer.Queue.Memory.{
  InMemoryFifo, sweep, cleanup_expired, enqueue, stamp, dequeue_ready, ready_index, remove_at,
  clear, is_live,
}
use llm_request_balancer.Queue.Memory.Serving.{Serves, first, later, dequeue_ready-Dequeues}
use llm_request_balancer.Queue.Memory.Bounds.{Call, enqueues, dequeues, sweeps, clears, step, run}

-- `Keeps xs ys`: xs are some of ys, in the order that they have there.
pub data Keeps : List QueueItem → List QueueItem → Type 0 where
  done : Keeps [] []
  kept : {x : QueueItem} {xs ys : List QueueItem} → Keeps xs ys → Keeps (x ∷ xs) (x ∷ ys)
  gone : {x : QueueItem} {xs ys : List QueueItem} → Keeps xs ys → Keeps xs (x ∷ ys)

Keeps-refl : (xs : List QueueItem) → Keeps xs xs
Keeps-refl [] = done
Keeps-refl (x ∷ xs) = kept (Keeps-refl xs)

Keeps-nil : (xs : List QueueItem) → Keeps [] xs
Keeps-nil [] = done
Keeps-nil (x ∷ xs) = gone (Keeps-nil xs)

Keeps-trans : {xs ys zs : List QueueItem} → Keeps xs ys → Keeps ys zs → Keeps xs zs
Keeps-trans k done = k
Keeps-trans (kept k) (kept l) = kept (Keeps-trans k l)
Keeps-trans (gone k) (kept l) = gone (Keeps-trans k l)
Keeps-trans k (gone l) = gone (Keeps-trans k l)

Keeps-append :
    {xs ys : List QueueItem} (zs : List QueueItem) → Keeps xs ys → Keeps (xs ++ zs) (ys ++ zs)
Keeps-append zs done = Keeps-refl zs
Keeps-append zs (kept k) = kept (Keeps-append zs k)
Keeps-append zs (gone k) = gone (Keeps-append zs k)

Serves-Keeps :
    (now : Time) {xs ys : List QueueItem} {x : QueueItem} → Serves now xs x ys → Keeps ys xs
Serves-Keeps now (first {xs = xs} h) = gone (Keeps-refl xs)
Serves-Keeps now (later h s) = kept (Serves-Keeps now s)

Keeps-sweep : (now : Time) (ttl : ℕ) (xs : List QueueItem) → Keeps (sweep now ttl xs).0 xs
unfolding sweep
Keeps-sweep now ttl [] = done
Keeps-sweep now ttl (x ∷ xs) = elim (Bool-cases (is_live now ttl x)) [
  | inl live ↦ rw live (kept (Keeps-sweep now ttl xs))
  | inr old ↦ rw old (gone (Keeps-sweep now ttl xs))
]

-- What a call adds to the queue.
added : InMemoryFifo → Time × Call → List QueueItem
added q (now, enqueues none) = []
added q (now, enqueues (some item)) =
    if leb q.max_size (length q.items) then [] else stamp now item ∷ []
added q (now, dequeues) = []
added q (now, sweeps) = []
added q (now, clears) = []

-- The items that a run of calls accepts, in the order of their calls.
unfoldable pub accepted : InMemoryFifo → List (Time × Call) → List QueueItem
unfolding added
accepted q [] = []
accepted q (c ∷ cs) = added q c ++ accepted (step q c) cs

step-Keeps : (q : InMemoryFifo) (c : Time × Call) → Keeps (step q c).items (q.items ++ added q c)
unfolding step added enqueue clear cleanup_expired
step-Keeps q (now, enqueues none) = rw append-nil (Keeps-refl q.items)
step-Keeps q (now, enqueues (some item)) = elim (Bool-cases (leb q.max_size (length q.items))) [
  | inl full ↦ rw (full, step, enqueue) (rw append-nil (Keeps-refl q.items))
  | inr room ↦ rw (room, step, enqueue) (Keeps-refl _)
]
step-Keeps q (now, dequeues) = rw append-nil (elim (dequeue_ready-Dequeues now q) [
  | inl (all, e) ↦ rw (e, step) (Keeps-refl q.items)
  | inr (x, ys, s, e) ↦ rw (e, step) (Serves-Keeps now s)
])
step-Keeps q (now, sweeps) =
    rw append-nil (elim (Bool-cases (ltb 0 (sweep now q.item_ttl q.items).1)) [
      | inl some' ↦ rw (some', step, cleanup_expired) (Keeps-sweep now q.item_ttl q.items)
      | inr none' ↦ rw (none', step, cleanup_expired) (Keeps-refl q.items)
    ])
step-Keeps q (now, clears) = Keeps-nil _

-- After any calls, the queue holds items that it held or accepted, each at most once, and in the
-- order in which they came: no call reorders, doubles or makes up an item.
pub run-Keeps :
    (q : InMemoryFifo) (cs : List (Time × Call)) → Keeps (run q cs).items (q.items ++ accepted q cs)
unfolding run accepted
run-Keeps q [] = rw append-nil (Keeps-refl q.items)
run-Keeps q (c ∷ cs) =
    rw (← append_assoc q.items (added q c) (accepted (step q c) cs))
      (Keeps-trans (run-Keeps (step q c) cs) (Keeps-append _ (step-Keeps q c)))

-- `n` calls of `Dequeue` at one instant; those that fail return nothing.
unfoldable pub dequeue_times : ℕ → Time → InMemoryFifo → InMemoryFifo × List QueueItem
dequeue_times zero now q = (q, [])
dequeue_times (suc n) now q =
    let (q', r) = dequeue_ready now q in
    let (q'', xs) = dequeue_times n now q' in elim r [ ok x ↦ (q'', x ∷ xs) | err e ↦ (q'', xs) ]

abbrev pub AllReady : Time → List QueueItem → Type 0
AllReady now = All (λ x. is_ready now x ≡ true)

dequeue_ready_front :
    (now : Time) (q : InMemoryFifo) (x : QueueItem) (xs : List QueueItem)
    → is_ready now x ≡ true
    → dequeue_ready now (record q { items = x ∷ xs }) ≡ (record q { items = xs }, ok x)
unfolding dequeue_ready ready_index remove_at
dequeue_ready_front now q x xs h = ground arith

-- If all items are ready, they come out in exactly the order in which they stand in the queue.
dequeue_times_all :
    (now : Time) (q : InMemoryFifo) (xs : List QueueItem)
    → AllReady now xs
    → dequeue_times (length xs) now (record q { items = xs }) ≡ (record q { items = [] }, xs)
unfolding dequeue_times
dequeue_times_all now q [] h = refl
dequeue_times_all now q (x ∷ xs) h =
    ground (arith, dequeue_ready_front now q x xs h.0, dequeue_times_all now q xs h.1)

unfoldable pub enqueue_all : Time → InMemoryFifo → List QueueItem → InMemoryFifo
enqueue_all now q [] = q
enqueue_all now q (x ∷ xs) = enqueue_all now (enqueue now q (some x)).0 xs

enqueue_all-append :
    (now : Time) (q : InMemoryFifo) (xs : List QueueItem)
    → length q.items + length xs ≤ q.max_size
    → enqueue_all now q xs ≡ record q { items = q.items ++ map (stamp now) xs }
unfolding enqueue_all enqueue
enqueue_all-append now q [] h = rw append-nil
enqueue_all-append now q (x ∷ xs) h =
    let room : leb q.max_size (length q.items) ≡ false = ground arith in
    rw room (
      enqueue_all-append now (record q { items = q.items ++ stamp now x ∷ [] }) xs
        (omega (arith, length-append q.items (stamp now x ∷ [])))
      ∙ rw append_assoc)

is_ready-stamp : (t now : Time) (x : QueueItem) → is_ready now (stamp t x) ≡ is_ready now x
unfolding is_ready stamp
is_ready-stamp t now x = refl

AllReady-map :
    (t now : Time) (xs : List QueueItem) → AllReady now xs → AllReady now (map (stamp t) xs)
AllReady-map t now [] h = tt
AllReady-map t now (x ∷ xs) h = (is_ready-stamp t now x ∙ h.0, AllReady-map t now xs h.1)

-- First in, first out: what is put into an empty queue that has room for it, and is ready, comes
-- out in the same order, unchanged but for the `EnqueueTime` that `Enqueue` fills in.
pub dequeue_times-enqueue_all :
    (t now : Time) (q : InMemoryFifo) (xs : List QueueItem)
    → q.items ≡ []
    → length xs ≤ q.max_size
    → AllReady now xs
    → dequeue_times (length xs) now (enqueue_all t q xs) ≡ (q, map (stamp t) xs)
dequeue_times-enqueue_all t now q xs e room ready = rw (enqueue_all-append t q xs (ground arith)) (
    rw (e, ← length-map xs (stamp t))
      (dequeue_times_all now q (map (stamp t) xs) (AllReady-map t now xs ready)))
