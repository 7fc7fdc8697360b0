-- ===== src/Queue/Memory/Serving.antt =====
-- Which item `Dequeue` and `Peek` of `InMemoryFIFO` pick: the first ready one.
use llm_request_balancer.Common.{
  ℕ, suc, ◌≡◌, refl, ◌∙◌, ◌⊎◌, inl, inr, true, false, Option, none, some, List, [], ◌∷◌, get_elem?,
  All, Bool-cases,
}
use llm_request_balancer.Common.Time.{Time}
use llm_request_balancer.Queue.Item.{QueueItem, Result, ok, err, queue_empty, is_ready}
use llm_request_balancer.Queue.Memory.{
  InMemoryFifo, ready_index, remove_at, dequeue_ready, first_ready, peek,
}

-- `Serves now xs x ys`: x is the first ready item of xs, and ys are the others in their order.
pub data Serves (now : Time) : List QueueItem → QueueItem → List QueueItem → Type 0 where
  first : {x : QueueItem} {xs : List QueueItem} → is_ready now x ≡ true → Serves now (x ∷ xs) x xs
  later :
      {x y : QueueItem} {xs ys : List QueueItem}
      → is_ready now x ≡ false
      → Serves now xs y ys
      → Serves now (x ∷ xs) y (x ∷ ys)

abbrev pub NoneReady : Time → List QueueItem → Type 0
NoneReady now = All (λ x. is_ready now x ≡ false)

-- The two ways in which a call on the queue `q` can end.
abbrev pub Dequeues : Time → InMemoryFifo → InMemoryFifo × Result QueueItem → Type 0
Dequeues now q r =
    (NoneReady now q.items × (r ≡ (q, err queue_empty)))
    ⊎ ((x : QueueItem) × (ys : List QueueItem) × Serves now q.items x ys
        × (r ≡ (record q { items = ys }, ok x)))

abbrev Finds : Time → List QueueItem → Option ℕ → Type 0
Finds now xs r =
    (NoneReady now xs × (r ≡ none))
    ⊎ ((i : ℕ) × (x : QueueItem) × Serves now xs x (remove_at i xs)
        × (get_elem? xs i ≡ some x)
        × (r ≡ some i))

ready_index-Finds : (now : Time) (xs : List QueueItem) → Finds now xs (ready_index now xs)
unfolding ready_index remove_at
ready_index-Finds now [] = inl (tt, refl)
ready_index-Finds now (x ∷ xs) = elim (Bool-cases (is_ready now x)) [
  | inl yes' ↦ inr (0, x, first yes', refl, rw yes')
  | inr no' ↦ elim (ready_index-Finds now xs) [
    | inl (all, e) ↦ inl ((no', all), rw (no', e))
    | inr (i, y, s, g, e) ↦ inr (suc i, y, later no' s, g, rw (no', e))
  ]
]

-- `Dequeue` takes out the first item that is ready and keeps the order of the others, or fails
-- with `ErrQueueEmpty` and changes nothing if no item is ready.
pub dequeue_ready-Dequeues : (now : Time) (q : InMemoryFifo) → Dequeues now q (dequeue_ready now q)
unfolding dequeue_ready
dequeue_ready-Dequeues now q = elim (ready_index-Finds now q.items) [
  | inl (all, e) ↦ inl (all, rw (e, dequeue_ready) refl)
  | inr (i, x, s, g, e) ↦
      inr (x, remove_at i q.items, s, rw (e, dequeue_ready) (rw (g, dequeue_ready) refl))
]

first_ready-Serves :
    (now : Time) {xs ys : List QueueItem} {x : QueueItem}
    → Serves now xs x ys
    → first_ready now xs ≡ ok x
unfolding first_ready
first_ready-Serves now (first h) = rw h
first_ready-Serves now (later h s) = rw h (first_ready-Serves now s)

first_ready-NoneReady :
    (now : Time) (xs : List QueueItem) → NoneReady now xs → first_ready now xs ≡ err queue_empty
unfolding first_ready
first_ready-NoneReady now [] h = refl
first_ready-NoneReady now (x ∷ xs) h = rw (h.0) (first_ready-NoneReady now xs h.1)

peek-eq-first_ready :
    (now : Time) (q : InMemoryFifo) (xs : List QueueItem)
    → q.items ≡ xs
    → peek now q ≡ first_ready now xs
unfolding peek first_ready
peek-eq-first_ready now q [] e = rw e
peek-eq-first_ready now q (x ∷ xs) e = rw e

-- `Peek` answers what `Dequeue` would return at the same instant, its error included.
pub peek-eq-dequeue_ready : (now : Time) (q : InMemoryFifo) → peek now q ≡ (dequeue_ready now q).1
peek-eq-dequeue_ready now q = elim (dequeue_ready-Dequeues now q) [
  | inl (all, e) ↦
      rw e (peek-eq-first_ready now q q.items refl ∙ first_ready-NoneReady now q.items all)
  | inr (x, ys, s, e) ↦ rw e (peek-eq-first_ready now q q.items refl ∙ first_ready-Serves now s)
]
