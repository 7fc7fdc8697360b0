-- ===== src/Queue/Worker/Tracking/Replying.antt =====
-- The step that sends on a channel.
use llm_request_balancer.Common.{
  ◌+◌, ◌≡◌, refl, ap, ◌∙◌, subst, some, List, [], ◌∷◌, ◌++◌, arith, All, String, str_eq, str_eq_iff,
  str_eq_refl, ◌==◌, if◌then◌else◌,
}
use llm_request_balancer.Llm.Types.{Response}
use llm_request_balancer.Queue.Item.{QueueItem}
use llm_request_balancer.Queue.Registry.{Channel, get}
use llm_request_balancer.Queue.Worker.{Codec, Failure}
use llm_request_balancer.Queue.Worker.Tracking.{Job, replying, removing, System, sends}
use llm_request_balancer.Queue.Worker.Tracking.Counting.{
  count, count-split, All-out, All-in, one_if, job_bears, removes_id, carriers, removers, IsCurrent,
  Inv,
}
use llm_request_balancer.Queue.Worker.Tracking.Registered.{
  removers_le, carried_jobs, most_carried, same-Paired,
}

pub sends-append :
    {R : Type 0} (ch c : Channel) (response : Response Failure R)
    (xs : List (Channel × Response Failure R))
    → sends ch (xs ++ (c, response) ∷ []) ≡ sends ch xs + (if c == ch then 1 else 0)
unfolding sends
sends-append ch c response [] = ground arith
sends-append ch c response ((d, r) ∷ xs) = ground (arith, sends-append ch c response xs)

module _ {Q L S P R : Type 0} (contents : Q → List QueueItem) (codec : Codec P) where
  pub replies-Inv :
      (id : String) (ch : Channel) (response : Response Failure R) (xs ys : List (Job P R))
      (s : System Q L S P R)
      → s.jobs ≡ xs ++ replying id (some ch) response ∷ ys
      → Inv contents codec s
      → Inv contents codec (record s {
        world = record (s.world) { sent = s.world.sent ++ (ch, response) ∷ [] };
        jobs = xs ++ removing id ∷ ys;
      })
  unfolding carriers removers
  replies-Inv id ch response xs ys s at v = record {
    paired = λ i. same-Paired contents codec i s t refl (same i) (v.paired i);
    current = All-in (IsCurrent codec s.world.registry) xs ys (removing id) tt split.1;
    single = v.single;
    told = λ i c g. ground (
      arith,
      sends-append c ch response s.world.sent,
      more i,
      v.told i c g,
      split.0,
      str_eq_iff id i,
      v.single id i ch split.0,
    );
    once = λ c. ground (arith, sends-append c ch response s.world.sent, unanswered, v.once c);
  }
    where
      t : System Q L S P R
      t = record s {
        world = record (s.world) { sent = s.world.sent ++ (ch, response) ∷ [] };
        jobs = xs ++ removing id ∷ ys;
      }

      split :
          (get id s.world.registry ≡ some ch) × All (IsCurrent codec s.world.registry) (xs ++ ys)
      split =
          All-out (IsCurrent codec s.world.registry) xs ys (replying id (some ch) response)
            (subst (All (IsCurrent codec s.world.registry)) at v.current)

      same : (i : String) → carriers contents codec i t ≡ carriers contents codec i s
      same i = omega (
        arith,
        ap (λ m. count (job_bears codec i) m) at,
        count-split (job_bears codec i) xs ys (replying id (some ch) response),
        count-split (job_bears codec i) xs ys (removing id),
      )

      more :
          (i : String)
          → removers contents codec i t ≡ one_if (str_eq id i) + removers contents codec i s
      more i = omega (
        arith,
        ap (λ m. count (λ (k : Job P R). removes_id i k) m) at,
        count-split (λ (k : Job P R). removes_id i k) xs ys (replying id (some ch) response),
        count-split (λ (k : Job P R). removes_id i k) xs ys (removing id),
      )

      alone : removers contents codec id s ≡ 0
      alone = omega (
        arith,
        ap (λ m. count (λ (k : Job P R). removes_id id k) m) at,
        count-split (λ (k : Job P R). removes_id id k) xs ys (replying id (some ch) response),
        removers_le codec id (xs ++ ys),
        ap (λ m. count (job_bears codec id) m) at,
        count-split (job_bears codec id) xs ys (replying id (some ch) response),
        ap one_if (str_eq_refl id),
        carried_jobs contents codec id s,
        most_carried contents codec id s (v.paired id),
      )

      unanswered : sends ch s.world.sent ≡ 0
      unanswered = v.told id ch split.0 ∙ alone
