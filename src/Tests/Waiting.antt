-- ===== src/Tests/Waiting.antt =====
-- A `Dequeue` that sleeps with its watcher beside it.
use llm_request_balancer.Common.{◌<◌, ◌≡◌, refl, ◌⊎◌, false}
use llm_request_balancer.Queue.Memory.Waiting.{
  Watcher, sleeping, watching, Wait, Steps, here, next, sleeps, first_pass, Wakes, Forever, lost,
  Steps-watched,
}

abbrev asleep : Wait
asleep = record { waiter = sleeping; current = watching; stale = 0; ctx_done = false }

Steps-watched_example :
    ((((◌≡◌ {A = Watcher} watching watching) ⊎ (0 < 0)) × Wakes asleep) ⊎ Forever asleep)
    × Steps (first_pass false) lost
    × Forever lost
Steps-watched_example = Steps-watched false asleep (next here (sleeps refl)) refl
