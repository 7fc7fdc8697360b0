-- ===== src/Queue/Worker/Tracking/Quietly.antt =====
-- The steps that neither register, nor remove, nor send.
use llm_request_balancer.Common.{◌+◌, ◌≡◌, refl, ap, subst, List, [], ◌∷◌, ◌++◌, arith, All, String}
use llm_request_balancer.Queue.Item.{QueueItem}
use llm_request_balancer.Queue.Worker.{Codec, World}
use llm_request_balancer.Queue.Worker.Tracking.{Entering, Job, taken, System}
use llm_request_balancer.Queue.Worker.Tracking.Counting.{
  count, count-split, count-end, All-out, All-in, item_bears, client_bears, job_bears, removes_id,
  carriers, removers, IsCurrent, Inv, Quiet,
}

module _ {Q L S P R : Type 0} (contents : Q → List QueueItem) (codec : Codec P)
    (s : System Q L S P R) (w : World Q L S R) (r : w.registry ≡ s.world.registry)
    (e : w.sent ≡ s.world.sent) (v : Inv contents codec s) where
  pub job_swapped :
      (j j' : Job P R) (xs ys : List (Job P R))
      → s.jobs ≡ xs ++ j ∷ ys
      → contents w.queue ≡ contents s.world.queue
      → ((id : String) → job_bears codec id j' ≡ job_bears codec id j)
      → ((id : String) → removes_id id j' ≡ removes_id id j)
      → (IsCurrent codec s.world.registry j → IsCurrent codec s.world.registry j')
      → Quiet contents codec s (record s { world = w; jobs = xs ++ j' ∷ ys })
  unfolding carriers removers
  job_swapped j j' xs ys at same b d c = record {
    registry = r;
    sent = e;
    carried = λ id. omega (
      arith,
      ap (λ m. count (item_bears codec id) m) same,
      ap (λ m. count (job_bears codec id) m) at,
      count-split (job_bears codec id) xs ys j,
      count-split (job_bears codec id) xs ys j',
      b id,
    );
    removed = λ id. omega (
      arith,
      ap (λ m. count (λ (k : Job P R). removes_id id k) m) at,
      count-split (λ (k : Job P R). removes_id id k) xs ys j,
      count-split (λ (k : Job P R). removes_id id k) xs ys j',
      d id,
    );
    current =
        let (p, rest) =
          All-out (IsCurrent codec s.world.registry) xs ys j
            (subst (All (IsCurrent codec s.world.registry)) at v.current) in
        All-in (IsCurrent codec s.world.registry) xs ys j' (c p) rest;
  }

  -- What a job carried is now in the queue, or lost, or was nothing.
  pub job_left :
      (j : Job P R) (xs ys : List (Job P R)) (lost : List QueueItem)
      → s.jobs ≡ xs ++ j ∷ ys
      → ((id : String)
          → count (item_bears codec id) (contents w.queue) + count (item_bears codec id) lost
            ≡ job_bears codec id j
              + count (item_bears codec id) (contents s.world.queue)
              + count (item_bears codec id) s.lost)
      → ((id : String) → removes_id id j ≡ 0)
      → Quiet contents codec s (record s { world = w; jobs = xs ++ ys; lost = lost })
  unfolding carriers removers
  job_left j xs ys lost at b d = record {
    registry = r;
    sent = e;
    carried = λ id. omega (
      arith,
      ap (λ m. count (job_bears codec id) m) at,
      count-split (job_bears codec id) xs ys j,
      b id,
    );
    removed = λ id. omega (
      arith,
      ap (λ m. count (λ (k : Job P R). removes_id id k) m) at,
      count-split (λ (k : Job P R). removes_id id k) xs ys j,
      d id,
    );
    current =
        (All-out (IsCurrent codec s.world.registry) xs ys j
          (subst (All (IsCurrent codec s.world.registry)) at v.current)).1;
  }

  pub client_swapped :
      (c c' : Entering P) (xs ys : List (Entering P))
      → s.clients ≡ xs ++ c ∷ ys
      → contents w.queue ≡ contents s.world.queue
      → ((id : String) → client_bears codec id c' ≡ client_bears codec id c)
      → Quiet contents codec s (record s { world = w; clients = xs ++ c' ∷ ys })
  unfolding carriers removers
  client_swapped c c' xs ys at same b = record {
    registry = r;
    sent = e;
    carried = λ id. omega (
      arith,
      ap (λ m. count (item_bears codec id) m) same,
      ap (λ m. count (client_bears codec id) m) at,
      count-split (client_bears codec id) xs ys c,
      count-split (client_bears codec id) xs ys c',
      b id,
    );
    removed = λ id. refl;
    current = v.current;
  }

  pub client_left :
      (c : Entering P) (xs ys : List (Entering P)) (new : QueueItem)
      → s.clients ≡ xs ++ c ∷ ys
      → contents w.queue ≡ contents s.world.queue ++ new ∷ []
      → ((id : String) → item_bears codec id new ≡ client_bears codec id c)
      → Quiet contents codec s (record s { world = w; clients = xs ++ ys })
  unfolding carriers removers
  client_left c xs ys new at more b = record {
    registry = r;
    sent = e;
    carried = λ id. omega (
      arith,
      ap (λ m. count (item_bears codec id) m) more,
      count-end (item_bears codec id) (contents s.world.queue) new,
      ap (λ m. count (client_bears codec id) m) at,
      count-split (client_bears codec id) xs ys c,
      b id,
    );
    removed = λ id. refl;
    current = v.current;
  }

  pub item_taken :
      (item : QueueItem) (xs ys : List QueueItem)
      → contents s.world.queue ≡ xs ++ item ∷ ys
      → contents w.queue ≡ xs ++ ys
      → Quiet contents codec s (record s { world = w; jobs = taken item ∷ s.jobs })
  unfolding carriers removers count
  item_taken item xs ys at left = record {
    registry = r;
    sent = e;
    carried = λ id. omega (
      arith,
      ap (λ m. count (item_bears codec id) m) at,
      ap (λ m. count (item_bears codec id) m) left,
      count-split (item_bears codec id) xs ys item,
    );
    removed = λ id. omega arith;
    current = (tt, v.current);
  }

  pub same_items :
      contents w.queue ≡ contents s.world.queue → Quiet contents codec s (record s { world = w })
  unfolding carriers removers
  same_items same = record {
    registry = r;
    sent = e;
    carried = λ id. omega (arith, ap (λ m. count (item_bears codec id) m) same);
    removed = λ id. refl;
    current = v.current;
  }
