-- ===== src/Tests/Memory.antt =====
-- The in-memory queue and the registry at small inputs.
use llm_request_balancer.Common.{
  ◌≤◌, ◌≡◌, refl, ◌⊎◌, true, false, none, some, List, [], ◌∷◌, ◌++◌, map, arith, String, length,
  keep,
}
use llm_request_balancer.Common.Int.{pos}
use llm_request_balancer.Common.Time.{Time}
use llm_request_balancer.Queue.Item.{
  QueueItem, QueueConfig, in_memory, ok, err, queue_full, is_ready, context_done,
}
use llm_request_balancer.Queue.Memory.{
  InMemoryFifo, new_in_memory_queue, is_live, sweep, cleanup_expired, enqueue, stamp, dequeue_ready,
  dequeue, Wake, blocked, returned, is_empty,
}
use llm_request_balancer.Queue.Memory.Serving.{Dequeues, dequeue_ready-Dequeues}
use llm_request_balancer.Queue.Memory.Bounds.{enqueues, dequeues, sweeps, run, run-new_within, Call}
use llm_request_balancer.Queue.Memory.Order.{
  Keeps, accepted, run-Keeps, dequeue_times, enqueue_all, dequeue_times-enqueue_all,
}
use llm_request_balancer.Queue.Memory.Expiry.{cleanup_expired-keep, dequeue_empty}

abbrev job : String → Time → QueueItem
job id process_after = record {
  id = id;
  payload = 1 ∷ [];
  metadata = [];
  priority = pos 0;
  enqueue_time = 3;
  process_after = process_after;
}

abbrev small : QueueConfig
small = record { type = in_memory; max_size = pos 2; item_ttl = pos 10; redis_options = none }

-- The first job is delayed until the time 9.
abbrev two_jobs : InMemoryFifo
two_jobs = record { items = job "a" 9 ∷ job "b" 0 ∷ []; max_size = 2; item_ttl = 10 }

delayed_is_passed_over : (dequeue_ready 5 two_jobs).1 ≡ ok (job "b" 0)
unfolding dequeue_ready is_ready
delayed_is_passed_over = refl

delayed_is_first_later : (dequeue_ready 9 two_jobs).1 ≡ ok (job "a" 9)
unfolding dequeue_ready is_ready
delayed_is_first_later = refl

full_queue_refuses : (enqueue 5 two_jobs (some (job "c" 0))).1 ≡ err queue_full
unfolding enqueue
full_queue_refuses = refl

expired_jobs_go : (cleanup_expired 13 two_jobs).items ≡ []
unfolding cleanup_expired sweep is_live
expired_jobs_go = refl

fresh_jobs_stay : cleanup_expired 12 two_jobs ≡ two_jobs
unfolding cleanup_expired sweep is_live
fresh_jobs_stay = refl

abbrev history : List (Time × Call)
history =
    (4, enqueues (some (job "a" 9)))
    ∷ (5, enqueues (some (job "b" 0)))
    ∷ (6, dequeues)
    ∷ (20, sweeps)
    ∷ []

dequeue_ready-Dequeues_example : Dequeues 5 two_jobs (dequeue_ready 5 two_jobs)
dequeue_ready-Dequeues_example = dequeue_ready-Dequeues 5 two_jobs

run-new_within_example :
    let q = run (new_in_memory_queue small) history in
    (length q.items ≤ q.max_size)
    × (q.max_size ≡ (new_in_memory_queue small).max_size)
    × (q.item_ttl ≡ (new_in_memory_queue small).item_ttl)
run-new_within_example = run-new_within small history

run-Keeps_example :
    Keeps
      (run (new_in_memory_queue small) history).items
      ([] ++ accepted (new_in_memory_queue small) history)
unfolding new_in_memory_queue
run-Keeps_example = run-Keeps (new_in_memory_queue small) history

abbrev no_jobs : InMemoryFifo
no_jobs = record { items = []; max_size = 2; item_ttl = 10 }

abbrev ready_jobs : List QueueItem
ready_jobs = job "b" 0 ∷ job "a" 9 ∷ []

dequeue_times-enqueue_all_example :
    dequeue_times 2 9 (enqueue_all 5 no_jobs ready_jobs) ≡ (no_jobs, map (stamp 5) ready_jobs)
unfolding is_ready
dequeue_times-enqueue_all_example =
    dequeue_times-enqueue_all 5 9 no_jobs ready_jobs refl (omega arith) (refl, (refl, tt))

cleanup_expired-keep_example :
    cleanup_expired 13 two_jobs ≡ record two_jobs { items = keep (is_live 13 10) two_jobs.items }
cleanup_expired-keep_example = cleanup_expired-keep 13 two_jobs

abbrev idle_wake : Wake
idle_wake = record { queue = no_jobs; now = 6; done = false }

abbrev busy_wake : Wake
busy_wake = record { queue = two_jobs; now = 7; done = false }

dequeue_empty_example :
    let r = dequeue 5 no_jobs (idle_wake ∷ busy_wake ∷ []) in
    (dequeue 5 no_jobs (idle_wake ∷ []) ≡ blocked)
    × (((false ≡ true) × (r ≡ returned two_jobs (err context_done)))
        ⊎ ((false ≡ false)
            × (is_empty two_jobs.items ≡ false)
            × (let (q', served) = dequeue_ready 7 two_jobs in r ≡ returned q' served))
        ⊎ ((false ≡ false) × (is_empty two_jobs.items ≡ true) × (r ≡ dequeue 5 no_jobs [])))
dequeue_empty_example =
    dequeue_empty 5 no_jobs (idle_wake ∷ []) [] busy_wake refl ((refl, refl), tt)
