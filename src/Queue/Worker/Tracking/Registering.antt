-- ===== src/Queue/Worker/Tracking/Registering.antt =====
-- The step that registers a channel.
use llm_request_balancer.Common.{
  ◌≡◌, refl, sym, ap, ◌∙◌, subst, ◌≢◌, ◌⊎◌, inl, inr, true, false, none, some, List, ◌∷◌, arith,
  String, str_eq, str_eq_iff, str_eq_refl, Bool-cases,
}
use mathlib.Core.Option.{some-injective}
use llm_request_balancer.Queue.Item.{QueueItem}
use llm_request_balancer.Queue.Registry.{Channel, register, get, get-register}
use llm_request_balancer.Queue.Worker.{Codec}
use llm_request_balancer.Queue.Worker.Colliding.{Submission}
use llm_request_balancer.Queue.Worker.Tracking.{entering, System, sends}
use llm_request_balancer.Queue.Worker.Tracking.Counting.{
  count, one_if, carriers, removers, still-current, Inv,
}
use llm_request_balancer.Queue.Worker.Tracking.Registered.{
  carried_jobs, carried_removers, none_carried, same-Paired,
}

module _ {Q L S P R : Type 0} (contents : Q → List QueueItem) (codec : Codec P) where
  pub registers-Inv :
      (id : String) (sub : Submission P) (s : System Q L S P R)
      → get id s.world.registry ≡ none
      → ((other : String) → get other s.world.registry ≢ some sub.channel)
      → sends sub.channel s.world.sent ≡ 0
      → Inv contents codec s
      → Inv contents codec (record s {
        world = record (s.world) { registry = register id sub.channel s.world.registry };
        clients = entering id sub ∷ s.clients;
      })
  unfolding carriers removers count
  registers-Inv id sub s free new unsent v = record {
    paired = λ i. elim (Bool-cases (str_eq id i)) [
      | inl eq ↦ inr (
        sub.channel,
        rw (get-register id i sub.channel s.world.registry) (rw eq refl),
        omega (arith, ap one_if eq, nothing i eq),
      )
      | inr ne ↦
          same-Paired contents codec i s t (kept i ne) (omega (arith, ap one_if ne)) (v.paired i)
    ];
    current =
        still-current codec s.world.registry t.world.registry s.jobs
          (λ i. elim (Bool-cases (str_eq id i)) [
            | inl eq ↦ inl (omega (arith, nothing i eq, carried_jobs contents codec i s))
            | inr ne ↦ inr (kept i ne)
          ])
          v.current;
    single = λ a b ch g h. one a b ch (before a ch g) (before b ch h);
    told = λ i ch g. elim (before i ch g) [
      | inl (eq, c) ↦
          subst (λ d. sends d s.world.sent ≡ removers contents codec i s) c
            (omega (
              arith,
              unsent,
              nothing i (subst (λ k. str_eq id k ≡ true) eq (str_eq_refl id)),
              carried_removers contents codec i s,
            ))
      | inr h ↦ v.told i ch h
    ];
    once = v.once;
  }
    where
      t : System Q L S P R
      t = record s {
        world = record (s.world) { registry = register id sub.channel s.world.registry };
        clients = entering id sub ∷ s.clients;
      }

      nothing : (i : String) → str_eq id i ≡ true → carriers contents codec i s ≡ 0
      nothing i eq =
          subst (λ k. carriers contents codec k s ≡ 0) ((str_eq_iff id i).0 eq)
            (none_carried contents codec id s free (v.paired id))

      kept : (i : String) → str_eq id i ≡ false → get i t.world.registry ≡ get i s.world.registry
      kept i ne = rw (get-register id i sub.channel s.world.registry) (rw ne refl)

      before :
          (i : String) (ch : Channel)
          → get i t.world.registry ≡ some ch
          → ((id ≡ i) × (sub.channel ≡ ch)) ⊎ (get i s.world.registry ≡ some ch)
      before i ch g = elim (Bool-cases (str_eq id i)) [
        | inl eq ↦ inl (
          (str_eq_iff id i).0 eq,
          some-injective _ _
              (sym (rw (get-register id i sub.channel s.world.registry) (rw eq refl)) ∙ g),
        )
        | inr ne ↦ inr (sym (kept i ne) ∙ g)
      ]

      one :
          (a b : String) (ch : Channel)
          → ((id ≡ a) × (sub.channel ≡ ch)) ⊎ (get a s.world.registry ≡ some ch)
          → ((id ≡ b) × (sub.channel ≡ ch)) ⊎ (get b s.world.registry ≡ some ch)
          → a ≡ b
      one a b ch (inl (e, c)) (inl (e', c')) = sym e ∙ e'
      one a b ch (inl (e, c)) (inr h) =
          absurd (new b (subst (λ d. get b s.world.registry ≡ some d) (sym c) h))
      one a b ch (inr g) (inl (e, c)) =
          absurd (new a (subst (λ d. get a s.world.registry ≡ some d) (sym c) g))
      one a b ch (inr g) (inr h) = v.single a b ch g h
