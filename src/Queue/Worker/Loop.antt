-- ===== src/Queue/Worker/Loop.antt =====
-- internal/queue/worker.go: `processLoop`, `waitForPendingJobs` and the deferred calls of
-- `processItem` as steps of one loop and of the goroutines that it starts. The semaphore is a
-- buffered channel, known by the number of its filled slots, and `wg` by its counter.
use llm_request_balancer.Common.{
  ℕ, suc, ◌+◌, ◌-◌, ◌≤◌, ◌<◌, ◌≡◌, refl, ap, List, [], ◌∷◌, arith, length,
}
use llm_request_balancer.Queue.Item.{QueueItem}

-- Where the loop stands: at its head; with a slot taken, in `Dequeue`; in `wg.Wait()`; and
-- behind its return, with `done` closed.
pub data Phase : Type 0 where
  head holding draining stopped : Phase

pub record Pool : Type 0 where
  pub phase : Phase
  pub semaphore : ℕ
  pub wg : ℕ
  pub running : List QueueItem
  pub released : List QueueItem

unfoldable pub start : Pool
start = record { phase = head; semaphore = 0; wg = 0; running = []; released = [] }

-- `Out x xs ys`: ys is xs without one occurrence of x.
pub data Out (x : QueueItem) : List QueueItem → List QueueItem → Type 0 where
  here : {xs : List QueueItem} → Out x (x ∷ xs) xs
  there : {y : QueueItem} {xs ys : List QueueItem} → Out x xs ys → Out x (y ∷ xs) (y ∷ ys)

-- The steps at a capacity of `max` slots. A stop is seen at the head alone. Of the deferred
-- calls of `processItem` the release of the slot is the first, and `wg.Done()` the second.
pub data Step (max : ℕ) (p : Pool) : Pool → Type 0 where
  stop_seen : p.phase ≡ head → Step max p (record p { phase = draining })
  slot_taken :
      p.phase ≡ head
      → p.semaphore < max
      → Step max p (record p { phase = holding; semaphore = p.semaphore + 1 })
  no_slot : p.phase ≡ head → p.semaphore ≡ max → Step max p p
  dequeue_failed :
      p.phase ≡ holding → Step max p (record p { phase = head; semaphore = p.semaphore - 1 })
  dequeued :
      (item : QueueItem)
      → p.phase ≡ holding
      → Step max p (record p { phase = head; wg = p.wg + 1; running = item ∷ p.running })
  slot_released :
      (item : QueueItem) (rest : List QueueItem)
      → Out item p.running rest
      → Step max p
          (record p { semaphore = p.semaphore - 1; running = rest; released = item ∷ p.released })
  wg_done :
      (item : QueueItem) (rest : List QueueItem)
      → Out item p.released rest
      → Step max p (record p { wg = p.wg - 1; released = rest })
  drained : p.phase ≡ draining → p.wg ≡ 0 → Step max p (record p { phase = stopped })

pub data Reach (max : ℕ) : Pool → Type 0 where
  started : Reach max start
  after_step : {p q : Pool} → Reach max p → Step max p q → Reach max q

abbrev pub held : Phase → ℕ
held holding = 1
held _ = 0

record Inv (max : ℕ) (p : Pool) : Type 0 where
  slots : p.semaphore ≡ length p.running + held p.phase
  capped : p.semaphore ≤ max
  waits : p.wg ≡ length p.running + length p.released
  emptied : p.phase ≡ stopped → p.wg ≡ 0

length-Out : {x : QueueItem} {xs ys : List QueueItem} → Out x xs ys → length xs ≡ suc (length ys)
length-Out here = refl
length-Out (there o) = ap suc (length-Out o)

Step-Inv : {max : ℕ} {p q : Pool} → Step max p q → Inv max p → Inv max q
Step-Inv (stop_seen h) v = ground arith
Step-Inv (slot_taken h k) v = ground arith
Step-Inv (no_slot h k) v = v
Step-Inv (dequeue_failed h) v = ground arith
Step-Inv (dequeued item h) v = ground arith
Step-Inv (slot_released item rest o) v = ground (arith, length-Out o)
Step-Inv (wg_done item rest o) v = ground (arith, length-Out o)
Step-Inv (drained h k) v = ground arith

Reach-Inv : {max : ℕ} {p : Pool} → Reach max p → Inv max p
unfolding start
Reach-Inv started = ground arith
Reach-Inv (after_step r s) = Step-Inv s (Reach-Inv r)

length_zero : (xs : List QueueItem) → length xs ≡ 0 → xs ≡ []
length_zero [] h = refl
length_zero (x ∷ xs) h = absurd (omega arith)

-- In every state that the loop and its goroutines reach, in any interleaving, the items that are
-- being processed, and the one that the loop may hold a slot for, are at most `MaxConcurrent`.
pub Reach-bounded : (max : ℕ) (p : Pool) → Reach max p → length p.running + held p.phase ≤ max
Reach-bounded max p r = omega (arith, Reach-Inv r)

-- A graceful stop: once `done` is closed, no item is being processed and all the goroutines have
-- ended, and no step starts one again.
pub Reach-stopped :
    (max : ℕ) (p : Pool)
    → Reach max p
    → p.phase ≡ stopped
    → (p.running ≡ []) × (p.released ≡ []) × ((q : Pool) → ¬ Step max p q)
Reach-stopped max p r h = (none_runs, none_left, no_step)
  where
    none_runs : p.running ≡ []
    none_runs = length_zero p.running (ground (arith, Reach-Inv r))

    none_left : p.released ≡ []
    none_left = length_zero p.released (ground (arith, Reach-Inv r))

    no_out : {x : QueueItem} {xs ys : List QueueItem} → xs ≡ [] → ¬ Out x xs ys
    no_out e o = absurd (omega (arith, length-Out o, ap length e))

    no_step : (q : Pool) → ¬ Step max p q
    no_step q (stop_seen k) = cc
    no_step q (slot_taken k l) = cc
    no_step q (no_slot k l) = cc
    no_step q (dequeue_failed k) = cc
    no_step q (dequeued item k) = cc
    no_step q (slot_released item rest o) = no_out none_runs o
    no_step q (wg_done item rest o) = no_out none_left o
    no_step q (drained k l) = cc
