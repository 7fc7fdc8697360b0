-- ===== src/Server/Stopping.antt =====
-- cmd/server/main.go: `main` from the start of the HTTP server to its return, with the worker's loop
-- beside it. Of the deferred calls `worker.Stop()` is the one that waits.
use llm_request_balancer.Common.{
  ℕ, ◌≡◌, ◌≢◌, refl, ap, ◌⊎◌, inl, inr, Bool, true, false, ◌||◌, [], arith, Bool-cases,
}
use llm_request_balancer.Queue.Worker.Loop.{
  Phase, head, holding, draining, stopped, Pool, start, Reach-stopped,
}
use llm_request_balancer.Queue.Worker.Loop as Loop

-- Where `main` stands: at `<-signalCh`; in `server.Shutdown`; behind it; behind `cancel()`; in
-- `worker.Stop()`, with `stopCh` closed; and returned.
pub data MainPhase : Type 0 where
  waiting shutting_down shut_down canceling stopping returned : MainPhase

-- `listening` is whether the server takes connections, `canceled` whether the context is done, and
-- `stop_closed` whether `stopCh` is closed.
pub record Running : Type 0 where
  pub phase : MainPhase
  pub listening : Bool
  pub canceled : Bool
  pub stop_closed : Bool
  pub worker : Pool

unfoldable pub running : Running
running = record {
  phase = waiting;
  listening = true;
  canceled = false;
  stop_closed = false;
  worker = start;
}

-- The loop waits for its goroutines only where the context is done or `stopCh` is closed. An error
-- of `ListenAndServe` cancels the context; `Shutdown` closes the listeners first, and then waits for
-- the handlers, or for its timeout.
pub data Step (max : ℕ) (r : Running) : Running → Type 0 where
  worker_steps :
      (p : Pool)
      → Loop.Step max r.worker p
      → (p.phase ≡ draining → (r.canceled || r.stop_closed) ≡ true)
      → Step max r (record r { worker = p })
  listening_failed :
      r.listening ≡ true → Step max r (record r { listening = false; canceled = true })
  signalled : r.phase ≡ waiting → Step max r (record r { phase = shutting_down })
  listeners_closed : r.phase ≡ shutting_down → Step max r (record r { listening = false })
  shutdown_returned :
      r.phase ≡ shutting_down → r.listening ≡ false → Step max r (record r { phase = shut_down })
  context_canceled :
      r.phase ≡ shut_down → Step max r (record r { phase = canceling; canceled = true })
  stop_called : r.phase ≡ canceling → Step max r (record r { phase = stopping; stop_closed = true })
  main_returned :
      r.phase ≡ stopping → r.worker.phase ≡ stopped → Step max r (record r { phase = returned })

pub data Reach (max : ℕ) : Running → Type 0 where
  at_start : Reach max running
  next : {r s : Running} → Reach max r → Step max r s → Reach max s

-- The loop has seen a stop.
abbrev pub ends : Phase → Bool
ends draining = true
ends stopped = true
ends _ = false

-- `Shutdown` has returned.
abbrev pub is_shut : MainPhase → Bool
is_shut waiting = false
is_shut shutting_down = false
is_shut _ = true

record Inv (max : ℕ) (r : Running) : Type 0 where
  worker : Loop.Reach max r.worker
  told : ends r.worker.phase ≡ true → (r.canceled || r.stop_closed) ≡ true
  deaf : (r.canceled || r.stop_closed) ≡ true → r.listening ≡ false
  shut : is_shut r.phase ≡ true → r.listening ≡ false
  awaited : r.phase ≡ returned → r.worker.phase ≡ stopped

ends-step :
    {max : ℕ} {p q : Pool}
    → Loop.Step max p q
    → ends q.phase ≡ true
    → (ends p.phase ≡ true) ⊎ (q.phase ≡ draining)
ends-step (Loop.stop_seen h) e = inr refl
ends-step (Loop.slot_taken h k) e = absurd (ground arith)
ends-step (Loop.no_slot h k) e = inl e
ends-step (Loop.dequeue_failed h) e = absurd (ground arith)
ends-step (Loop.dequeued item h) e = absurd (ground arith)
ends-step (Loop.slot_released item rest o) e = inl e
ends-step (Loop.wg_done item rest o) e = inl e
ends-step (Loop.drained h k) e = inl (ground arith)

Step-Inv : {max : ℕ} (r s : Running) → Step max r s → Inv max r → Inv max s
Step-Inv {max} r s (worker_steps p step sees) v = record {
  worker = Loop.after_step v.worker step;
  told = λ e. elim (ends-step step e) [ inl e' ↦ v.told e' | inr d ↦ sees d ];
  deaf = v.deaf;
  shut = v.shut;
  awaited = λ e. absurd ((Reach-stopped max r.worker v.worker (v.awaited e)).2 p step);
}
Step-Inv r s (listening_failed h) v = record {
  worker = v.worker;
  told = λ e. refl;
  deaf = λ e. refl;
  shut = λ e. refl;
  awaited = v.awaited;
}
Step-Inv r s (signalled h) v = record {
  worker = v.worker;
  told = v.told;
  deaf = v.deaf;
  shut = λ e. absurd (ground arith);
  awaited = λ e. absurd (ground arith);
}
Step-Inv r s (listeners_closed h) v = record {
  worker = v.worker;
  told = v.told;
  deaf = λ e. refl;
  shut = λ e. refl;
  awaited = v.awaited;
}
Step-Inv r s (shutdown_returned h k) v = record {
  worker = v.worker;
  told = v.told;
  deaf = v.deaf;
  shut = λ e. k;
  awaited = λ e. absurd (ground arith);
}
Step-Inv r s (context_canceled h) v = record {
  worker = v.worker;
  told = λ e. refl;
  deaf = λ e. v.shut (ap is_shut h);
  shut = λ e. v.shut (ap is_shut h);
  awaited = λ e. absurd (ground arith);
}
Step-Inv r s (stop_called h) v = record {
  worker = v.worker;
  told = λ e. ground arith;
  deaf = λ e. v.shut (ap is_shut h);
  shut = λ e. v.shut (ap is_shut h);
  awaited = λ e. absurd (ground arith);
}
Step-Inv r s (main_returned h k) v = record {
  worker = v.worker;
  told = v.told;
  deaf = v.deaf;
  shut = λ e. v.shut (ap is_shut h);
  awaited = λ e. k;
}

Reach-Inv : {max : ℕ} (r : Running) → Reach max r → Inv max r
unfolding running start
Reach-Inv r at_start = record {
  worker = Loop.started;
  told = λ e. absurd (ground arith);
  deaf = λ e. absurd (ground arith);
  shut = λ e. absurd (ground arith);
  awaited = λ e. absurd (ground arith);
}
Reach-Inv r (next {r = r'} h step) = Step-Inv r' r step (Reach-Inv r' h)

returned_or : (p : MainPhase) → (p ≡ returned) ⊎ (p ≢ returned)
returned_or returned = inl refl
returned_or waiting = inr (λ e. absurd (ground arith))
returned_or shutting_down = inr (λ e. absurd (ground arith))
returned_or shut_down = inr (λ e. absurd (ground arith))
returned_or canceling = inr (λ e. absurd (ground arith))
returned_or stopping = inr (λ e. absurd (ground arith))

-- How the program stops, in any interleaving of `main`, the HTTP server and the worker: the loop
-- takes items until the server has stopped to listen; and when `main` has returned, the server does
-- not listen, no item is being processed and every goroutine of the worker has ended.
pub Reach-returned :
    (max : ℕ) (r : Running)
    → Reach max r
    → ((r.listening ≡ false) ⊎ (r.worker.phase ≡ head) ⊎ (r.worker.phase ≡ holding))
      × ((r.phase ≢ returned)
          ⊎ ((r.listening ≡ false) × (r.worker.running ≡ []) × (r.worker.released ≡ [])))
Reach-returned max r h = (loops, returns)
  where
    v : Inv max r
    v = Reach-Inv r h

    loops : (r.listening ≡ false) ⊎ (r.worker.phase ≡ head) ⊎ (r.worker.phase ≡ holding)
    loops = elim (Bool-cases (ends r.worker.phase)) [
      | inl e ↦ inl (v.deaf (v.told e))
      | inr e ↦ inr (ground arith)
    ]

    returns :
        (r.phase ≢ returned)
        ⊎ ((r.listening ≡ false) × (r.worker.running ≡ []) × (r.worker.released ≡ []))
    returns = elim (returned_or r.phase) [
      | inl e ↦
          let (a, b, c) = Reach-stopped max r.worker v.worker (v.awaited e) in
          inr (v.shut (ap is_shut e), a, b)
      | inr ne ↦ inl ne
    ]
