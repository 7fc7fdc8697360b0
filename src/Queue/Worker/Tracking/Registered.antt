-- ===== src/Queue/Worker/Tracking/Registered.antt =====
-- What a registration has to do with what carries its id.
use llm_request_balancer.Common.{◌≤◌, ◌≡◌, ◌∙◌, inl, inr, none, List, [], ◌∷◌, arith, String}
use llm_request_balancer.Queue.Item.{QueueItem}
use llm_request_balancer.Queue.Registry.{get}
use llm_request_balancer.Queue.Worker.{Codec}
use llm_request_balancer.Queue.Worker.Tracking.{
  Job, taken, looked, refused, calling, replying, removing, System,
}
use llm_request_balancer.Queue.Worker.Tracking.Counting.{
  count, job_bears, removes_id, carriers, removers, Paired,
}

module _ {P R : Type 0} (codec : Codec P) where
  pub removers_le :
      (id : String) (js : List (Job P R))
      → count (λ (k : Job P R). removes_id id k) js ≤ count (job_bears codec id) js
  unfolding count
  removers_le id [] = omega arith
  removers_le id (j ∷ js) = omega (arith, one j, removers_le id js)
    where
      one : (j : Job P R) → removes_id id j ≤ job_bears codec id j
      one (taken item) = omega arith
      one (looked item queued request ch) = omega arith
      one (refused item queued request ch) = omega arith
      one (calling queued request ch) = omega arith
      one (replying i ch response) = omega arith
      one (removing i) = omega arith

module _ {Q L S P R : Type 0} (contents : Q → List QueueItem) (codec : Codec P) where
  pub carried_jobs :
      (id : String) (s : System Q L S P R)
      → count (job_bears codec id) s.jobs ≤ carriers contents codec id s
  unfolding carriers
  carried_jobs id s = omega arith

  pub carried_removers :
      (id : String) (s : System Q L S P R)
      → removers contents codec id s ≤ carriers contents codec id s
  unfolding removers
  carried_removers id s = omega (arith, removers_le codec id s.jobs, carried_jobs id s)

  pub none_carried :
      (id : String) (s : System Q L S P R)
      → get id s.world.registry ≡ none
      → Paired contents codec id s
      → carriers contents codec id s ≡ 0
  none_carried id s g (inl (h, n)) = n
  none_carried id s g (inr (ch, h, n)) = absurd (ground (arith, g, h))

  pub most_carried :
      (id : String) (s : System Q L S P R)
      → Paired contents codec id s
      → carriers contents codec id s ≤ 1
  most_carried id s (inl (h, n)) = omega arith
  most_carried id s (inr (ch, h, n)) = omega arith

  pub same-Paired :
      (id : String) (s t : System Q L S P R)
      → get id t.world.registry ≡ get id s.world.registry
      → carriers contents codec id t ≡ carriers contents codec id s
      → Paired contents codec id s
      → Paired contents codec id t
  same-Paired id s t e l (inl (g, n)) = inl (e ∙ g, l ∙ n)
  same-Paired id s t e l (inr (ch, g, n)) = inr (ch, e ∙ g, l ∙ n)
