-- ===== src/Queue/Worker/Tracking/InMemory.antt =====
-- The `Dequeue` of `InMemoryFIFO`, behind its wait, and its clean-up, as steps of the system.
use llm_request_balancer.Common.{
  ◌≡◌, refl, sym, ap, ◌∙◌, subst, inl, inr, Bool, List, [], ◌∷◌, ◌++◌, arith, keep, Bool-cases,
}
use mathlib.Core.List.{append_assoc}
use llm_request_balancer.Common.Time.{Time}
use llm_request_balancer.Limiter.Types.{Limiter}
use llm_request_balancer.Queue.Item.{QueueItem, ok}
use llm_request_balancer.Queue.Memory.{InMemoryFifo, dequeue_ready, cleanup_expired, is_live}
use llm_request_balancer.Queue.Memory.Expiry.{cleanup_expired-keep}
use llm_request_balancer.Queue.Memory.Serving.{Serves, first, later, dequeue_ready-Dequeues}
use llm_request_balancer.Queue.Worker.{Codec, Service, World, WorkerSettings}
use llm_request_balancer.Queue.Worker.InMemory.{in_memory, held_items}
use llm_request_balancer.Queue.Worker.Tracking.{
  Entering, Job, System, Step, taken, takes_out, loses, Reach, here, next,
}

abbrev Splits : List QueueItem → QueueItem → List QueueItem → Type 0
Splits xs x ys =
    (before : List QueueItem) × (after : List QueueItem) × (xs ≡ before ++ x ∷ after)
    × (ys ≡ before ++ after)

Serves-Splits :
    (now : Time) {xs ys : List QueueItem} {x : QueueItem} → Serves now xs x ys → Splits xs x ys
Serves-Splits now (first {xs = xs} h) = ([], xs, refl, refl)
Serves-Splits now (later {x = x} h s) =
    let (before, after, e, e') = Serves-Splits now s in
    (x ∷ before, after, ap (λ m. x ∷ m) e, ap (λ m. x ∷ m) e')

module _ {L S P R : Type 0} (limits : Limiter L) (llm : Service S P R) (codec : Codec P)
    (settings : WorkerSettings) where
  -- What `Dequeue` returns is in hand, and nothing else leaves the queue.
  pub dequeue_ready-Step :
      (now : Time) (item : QueueItem) (s : System InMemoryFifo L S P R)
      → (dequeue_ready now s.world.queue).1 ≡ ok item
      → Step in_memory held_items limits llm codec settings s (record s {
        world = record (s.world) { queue = (dequeue_ready now s.world.queue).0 };
        jobs = taken item ∷ s.jobs;
      })
  dequeue_ready-Step now item s h = elim (dequeue_ready-Dequeues now s.world.queue) [
    | inl (all, e) ↦ absurd (ground (arith, h, ap (λ r. r.1) e))
    | inr (x, ys, serves, e) ↦
        let (before, after, split, rest) = Serves-Splits now serves in
        let same : x ≡ item = ground (arith, h, ap (λ r. r.1) e) in
        takes_out item _ before after
          (subst (λ i. s.world.queue.items ≡ before ++ i ∷ after) same split)
          (ap (λ r. r.0.items) e ∙ rest)
  ]

  module _ (w : World InMemoryFifo L S R) (clients : List (Entering P))
      (jobs : List (Job P R)) where
    abbrev at : List QueueItem → List QueueItem → System InMemoryFifo L S P R
    at items lost = record {
      world = record w { queue = record (w.queue) { items = items } };
      clients = clients;
      jobs = jobs;
      lost = lost;
    }

    keep-Reach :
        (live : QueueItem → Bool) (before xs lost : List QueueItem)
        (s : System InMemoryFifo L S P R)
        → Reach in_memory held_items limits llm codec settings s (at (before ++ xs) lost)
        → (more : List QueueItem) × Reach in_memory held_items limits llm codec settings s
            (at (before ++ keep live xs) more)
    keep-Reach live before [] lost s r = (lost, r)
    keep-Reach live before (x ∷ xs) lost s r = elim (Bool-cases (live x)) [
      | inl t ↦
          let (more, r') = keep-Reach live (before ++ x ∷ []) xs lost s (
            subst (λ m. Reach in_memory held_items limits llm codec settings s (at m lost))
              (sym (append_assoc before (x ∷ []) xs)) r) in
          (
            more,
            subst (λ m. Reach in_memory held_items limits llm codec settings s (at m more))
                (append_assoc before (x ∷ []) (keep live xs) ∙ sym (rw (t, keep) refl)) r',
          )
      | inr f ↦
          let (more, r') =
            keep-Reach live before xs (x ∷ lost) s
              (next (next r (takes_out x _ before xs refl refl)) (loses x [] jobs refl)) in
          (
            more,
            subst (λ m. Reach in_memory held_items limits llm codec settings s (at m more))
                (sym (rw (f, keep) refl)) r',
          )
    ]

    -- The clean-up is made of the steps: each item that it drops is taken out and lost.
    cleanup_expired-Reach :
        (now : Time) (lost : List QueueItem)
        → (more : List QueueItem) × Reach in_memory held_items limits llm codec settings
            (at w.queue.items lost)
            (record (at w.queue.items more) {
              world = record w { queue = cleanup_expired now w.queue };
            })
    cleanup_expired-Reach now lost =
        rw (cleanup_expired-keep now w.queue)
          (keep-Reach (is_live now w.queue.item_ttl) [] w.queue.items lost _ here)
