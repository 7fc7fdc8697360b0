-- ===== src/Queue/Worker/Tracking/Removing.antt =====
-- The steps that remove a registration.
use llm_request_balancer.Common.{
  ◌+◌, ◌≤◌, ◌≡◌, refl, sym, ap, ◌∙◌, subst, ◌≢◌, inl, inr, true, false, none, some, List, ◌∷◌, ◌++◌,
  arith, All, String, str_eq, str_eq_refl, Bool-cases,
}
use llm_request_balancer.Queue.Item.{QueueItem}
use llm_request_balancer.Queue.Registry.{Channel, get, remove, get-remove}
use llm_request_balancer.Queue.Worker.{Codec}
use llm_request_balancer.Queue.Worker.Tracking.{Entering, failing, Job, removing, System, sends}
use llm_request_balancer.Queue.Worker.Tracking.Counting.{
  count, count-split, All-out, one_if, client_bears, job_bears, removes_id, carriers, removers,
  IsCurrent, still-current, Inv,
}
use llm_request_balancer.Queue.Worker.Tracking.Registered.{
  carried_jobs, none_carried, most_carried, same-Paired,
}

module _ {Q L S P R : Type 0} (contents : Q → List QueueItem) (codec : Codec P) where
  -- A registration is removed with its carrier.
  pub removed-Inv :
      (id : String) (s t : System Q L S P R)
      → t.world.registry ≡ remove id s.world.registry
      → t.world.sent ≡ s.world.sent
      → ((i : String)
          → carriers contents codec i s ≡ one_if (str_eq id i) + carriers contents codec i t)
      → ((i : String)
          → str_eq id i ≡ false
          → removers contents codec i t ≡ removers contents codec i s)
      → All (IsCurrent codec s.world.registry) t.jobs
      → Inv contents codec s
      → Inv contents codec t
  removed-Inv id s t r e c m a v = record {
    paired = λ i. elim (Bool-cases (str_eq id i)) [
      | inl eq ↦ inl (gone i eq, spent i eq)
      | inr ne ↦
          same-Paired contents codec i s t (kept i ne) (omega (arith, c i, ap one_if ne))
            (v.paired i)
    ];
    current =
        still-current codec s.world.registry t.world.registry t.jobs
          (λ i. elim (Bool-cases (str_eq id i)) [
            | inl eq ↦ inl (omega (arith, spent i eq, carried_jobs contents codec i t))
            | inr ne ↦ inr (kept i ne)
          ])
          a;
    single = λ i j ch g h. v.single i j ch (before i ch g).1 (before j ch h).1;
    told = λ i ch g.
        ap (λ l. sends ch l) e ∙ v.told i ch (before i ch g).1 ∙ sym (m i (before i ch g).0);
    once = λ ch. subst (λ l. sends ch l ≤ 1) (sym e) (v.once ch);
  }
    where
      gone : (i : String) → str_eq id i ≡ true → get i t.world.registry ≡ none
      gone i eq = ap (λ l. get i l) r ∙ rw (get-remove id i s.world.registry) (rw eq refl)

      kept : (i : String) → str_eq id i ≡ false → get i t.world.registry ≡ get i s.world.registry
      kept i ne = ap (λ l. get i l) r ∙ rw (get-remove id i s.world.registry) (rw ne refl)

      spent : (i : String) → str_eq id i ≡ true → carriers contents codec i t ≡ 0
      spent i eq = omega (arith, c i, ap one_if eq, most_carried contents codec i s (v.paired i))

      before :
          (i : String) (ch : Channel)
          → get i t.world.registry ≡ some ch
          → (str_eq id i ≡ false) × (get i s.world.registry ≡ some ch)
      before i ch g = elim (Bool-cases (str_eq id i)) [
        | inl eq ↦ absurd (ground (arith, g, gone i eq))
        | inr ne ↦ (ne, sym (kept i ne) ∙ g)
      ]

  -- A job without a channel would carry an id that is not registered.
  pub channel_held :
      (id : String) (j : Job P R) (xs ys : List (Job P R)) (s : System Q L S P R)
      → s.jobs ≡ xs ++ j ∷ ys
      → job_bears codec id j ≡ one_if (str_eq id id)
      → Inv contents codec s
      → get id s.world.registry ≢ none
  channel_held id j xs ys s at b v g = absurd (
      omega (
        arith,
        ap (λ m. count (job_bears codec id) m) at,
        count-split (job_bears codec id) xs ys j,
        b,
        ap one_if (str_eq_refl id),
        carried_jobs contents codec id s,
        none_carried contents codec id s g (v.paired id),
      ))

  pub cleans_up-Inv :
      (id : String) (xs ys : List (Entering P)) (s : System Q L S P R)
      → s.clients ≡ xs ++ failing id ∷ ys
      → Inv contents codec s
      → Inv contents codec (record s {
        world = record (s.world) { registry = remove id s.world.registry };
        clients = xs ++ ys;
      })
  unfolding carriers removers
  cleans_up-Inv id xs ys s at v =
      removed-Inv id s _ refl refl
        (λ i. omega (
          arith,
          ap (λ m. count (client_bears codec i) m) at,
          count-split (client_bears codec i) xs ys (failing id),
        ))
        (λ i ne. refl) v.current v

  pub removes-Inv :
      (id : String) (xs ys : List (Job P R)) (s : System Q L S P R)
      → s.jobs ≡ xs ++ removing id ∷ ys
      → Inv contents codec s
      → Inv contents codec (record s {
        world = record (s.world) { registry = remove id s.world.registry };
        jobs = xs ++ ys;
      })
  unfolding carriers removers
  removes-Inv id xs ys s at v =
      removed-Inv id s _ refl refl
        (λ i. omega (
          arith,
          ap (λ m. count (job_bears codec i) m) at,
          count-split (job_bears codec i) xs ys (removing id),
        ))
        (λ i ne. omega (
          arith,
          ap (λ m. count (λ (k : Job P R). removes_id i k) m) at,
          count-split (λ (k : Job P R). removes_id i k) xs ys (removing id),
          ap one_if ne,
        ))
        (All-out (IsCurrent codec s.world.registry) xs ys (removing id)
          (subst (All (IsCurrent codec s.world.registry)) at v.current)).1
        v
