-- ===== src/Tests/Stopping.antt =====
-- A signal, and the way of `main` to its return.
use llm_request_balancer.Common.{◌≡◌, ◌≢◌, refl, ◌⊎◌, true, false, []}
use llm_request_balancer.Queue.Worker.Loop.{head, holding, Pool, start, stop_seen, drained}
use llm_request_balancer.Queue.Worker.Loop as Loop
use llm_request_balancer.Server.Stopping.{
  Running, running, returned, worker_steps, signalled, listeners_closed, shutdown_returned,
  context_canceled, stop_called, main_returned, Reach, at_start, next, Reach-returned,
}

abbrev all_over : Running
all_over = record {
  phase = returned;
  listening = false;
  canceled = true;
  stop_closed = true;
  worker = record { phase = Loop.stopped; semaphore = 0; wg = 0; running = []; released = [] };
}

all_over-Reach : Reach 2 all_over
unfolding running start
all_over-Reach =
    next
      (next
        (next
          (next
            (next
              (next (next (next at_start (signalled refl)) (listeners_closed refl))
                (shutdown_returned refl refl))
              (context_canceled refl))
            (worker_steps _ (stop_seen refl) (λ e. refl)))
          (worker_steps _ (drained refl refl) (λ e. refl)))
        (stop_called refl))
      (main_returned refl refl)

Reach-returned_example :
    ((false ≡ false) ⊎ (all_over.worker.phase ≡ head) ⊎ (all_over.worker.phase ≡ holding))
    × ((all_over.phase ≢ returned)
        ⊎ ((false ≡ false) × (all_over.worker.running ≡ []) × (all_over.worker.released ≡ [])))
Reach-returned_example = Reach-returned 2 all_over all_over-Reach
