-- ===== src/Queue/Worker/Tracking/Counting.antt =====
-- What carries an id: calls of `EnqueueRequest`, items in the queue, jobs, and items that were lost.
use llm_request_balancer.Common.{
  ℕ, ◌+◌, ◌≤◌, ◌≡◌, refl, sym, ap, ◌∙◌, subst, ◌⊎◌, inl, inr, Bool, Option, none, some, List, [],
  ◌∷◌, ◌++◌, arith, All, String, str_eq, str_eq_refl, if◌then◌else◌,
}
use llm_request_balancer.Queue.Item.{QueueItem}
use llm_request_balancer.Queue.Registry.{Channel, ChannelRegistry, get}
use llm_request_balancer.Queue.Worker.{Codec}
use llm_request_balancer.Queue.Worker.Tracking.{
  Entering, entering, failing, Job, taken, looked, refused, calling, replying, removing, System,
  sends,
}

module _ {A : Type 0} where
  unfoldable pub count : (A → ℕ) → List A → ℕ
  count f [] = 0
  count f (x ∷ xs) = f x + count f xs

  pub count-split :
      (f : A → ℕ) (xs ys : List A) (x : A) → count f (xs ++ x ∷ ys) ≡ f x + count f (xs ++ ys)
  unfolding count
  count-split f [] ys x = refl
  count-split f (z ∷ xs) ys x = omega (arith, count-split f xs ys x)

  pub count-end : (f : A → ℕ) (xs : List A) (x : A) → count f (xs ++ x ∷ []) ≡ count f xs + f x
  unfolding count
  count-end f [] x = omega arith
  count-end f (z ∷ xs) x = omega (arith, count-end f xs x)

  pub All-out :
      (P : A → Type 0) (xs ys : List A) (x : A) → All P (xs ++ x ∷ ys) → P x × All P (xs ++ ys)
  All-out P [] ys x h = h
  All-out P (z ∷ xs) ys x h = let (p, rest) = All-out P xs ys x h.1 in (p, (h.0, rest))

  pub All-in :
      (P : A → Type 0) (xs ys : List A) (x : A) → P x → All P (xs ++ ys) → All P (xs ++ x ∷ ys)
  All-in P [] ys x p h = (p, h)
  All-in P (z ∷ xs) ys x p h = (h.0, All-in P xs ys x p h.1)

abbrev pub one_if : Bool → ℕ
one_if b = if b then 1 else 0

module _ {P : Type 0} (codec : Codec P) where
  abbrev pub item_bears : String → QueueItem → ℕ
  item_bears id item = elim (codec.unmarshal item.payload) [
    | none ↦ 0
    | some queued ↦ one_if (str_eq queued.request_id id)
  ]

  abbrev pub client_bears : String → Entering P → ℕ
  client_bears id (entering i sub) = one_if (str_eq i id)
  client_bears id (failing i) = one_if (str_eq i id)

  abbrev pub job_bears : {R : Type 0} → String → Job P R → ℕ
  job_bears id (taken item) = item_bears id item
  job_bears id (looked item queued request ch) = one_if (str_eq queued.request_id id)
  job_bears id (refused item queued request ch) = one_if (str_eq queued.request_id id)
  job_bears id (calling queued request ch) = one_if (str_eq queued.request_id id)
  job_bears id (replying i ch response) = one_if (str_eq i id)
  job_bears id (removing i) = one_if (str_eq i id)

abbrev pub removes_id : {P R : Type 0} → String → Job P R → ℕ
removes_id id (removing i) = one_if (str_eq i id)
removes_id id _ = 0

module _ {P R : Type 0} (codec : Codec P) where
  -- A job holds the channel that is registered, and the request of its item.
  abbrev pub IsCurrent : ChannelRegistry → Job P R → Type 0
  IsCurrent r (taken item) = Unit {0}
  IsCurrent r (looked item queued request ch) =
      (get queued.request_id r ≡ ch) × (codec.unmarshal item.payload ≡ some queued)
  IsCurrent r (refused item queued request ch) =
      (get queued.request_id r ≡ ch) × (codec.unmarshal item.payload ≡ some queued)
  IsCurrent r (calling queued request ch) = get queued.request_id r ≡ ch
  IsCurrent r (replying i ch response) = get i r ≡ ch
  IsCurrent r (removing i) = Unit {0}

  -- Jobs of other ids are not touched by a change of the registry.
  pub still-current :
      (r r' : ChannelRegistry) (js : List (Job P R))
      → ((id : String) → (count (job_bears codec id) js ≡ 0) ⊎ (get id r' ≡ get id r))
      → All (IsCurrent r) js
      → All (IsCurrent r') js
  unfolding count
  still-current r r' [] h a = tt
  still-current r r' (j ∷ js) h a = (
    job j h a.0,
    still-current r r' js (λ id. elim (h id) [ inl z ↦ inl (omega arith) | inr e ↦ inr e ]) a.1,
  )
    where
      own :
          (i : String) (n : ℕ)
          → (one_if (str_eq i i) + n ≡ 0) ⊎ (get i r' ≡ get i r)
          → get i r' ≡ get i r
      own i n (inl z) = absurd (ground (arith, z, str_eq_refl i))
      own i n (inr e) = e

      job :
          (j : Job P R)
          → ((id : String) → (count (job_bears codec id) (j ∷ js) ≡ 0) ⊎ (get id r' ≡ get id r))
          → IsCurrent r j
          → IsCurrent r' j
      job (taken item) h a = tt
      job (looked item queued request ch) h a =
          (own queued.request_id _ (h queued.request_id) ∙ a.0, a.1)
      job (refused item queued request ch) h a =
          (own queued.request_id _ (h queued.request_id) ∙ a.0, a.1)
      job (calling queued request ch) h a = own queued.request_id _ (h queued.request_id) ∙ a
      job (replying i ch response) h a = own i _ (h i) ∙ a
      job (removing i) h a = tt

module _ {Q L S P R : Type 0} (contents : Q → List QueueItem) (codec : Codec P) where
  -- How many carry the id.
  unfoldable pub carriers : String → System Q L S P R → ℕ
  carriers id s =
      count (client_bears codec id) s.clients
      + count (item_bears codec id) (contents s.world.queue)
      + count (job_bears codec id) s.jobs
      + count (item_bears codec id) s.lost

  unfoldable pub removers : String → System Q L S P R → ℕ
  removers id s = count (removes_id id) s.jobs

  abbrev pub Paired : String → System Q L S P R → Type 0
  Paired id s =
      ((get id s.world.registry ≡ none) × (carriers id s ≡ 0))
      ⊎ ((ch : Channel) × (get id s.world.registry ≡ some ch) × (carriers id s ≡ 1))

  pub record Inv (s : System Q L S P R) : Type 0 where
    pub paired : (id : String) → Paired id s
    pub current : All (IsCurrent codec s.world.registry) s.jobs
    pub single :
        (a b : String) (ch : Channel)
        → get a s.world.registry ≡ some ch
        → get b s.world.registry ≡ some ch
        → a ≡ b
    pub told :
        (id : String) (ch : Channel)
        → get id s.world.registry ≡ some ch
        → sends ch s.world.sent ≡ removers id s
    pub once : (ch : Channel) → sends ch s.world.sent ≤ 1

  -- A step that neither registers, nor removes, nor sends.
  pub record Quiet (s t : System Q L S P R) : Type 0 where
    pub registry : t.world.registry ≡ s.world.registry
    pub sent : t.world.sent ≡ s.world.sent
    pub carried : (id : String) → carriers id t ≡ carriers id s
    pub removed : (id : String) → removers id t ≡ removers id s
    pub current : All (IsCurrent codec s.world.registry) t.jobs

  pub Quiet-Inv : (s t : System Q L S P R) → Quiet s t → Inv s → Inv t
  Quiet-Inv s t q v = record {
    paired = λ id. elim (v.paired id) [
      | inl (g, n) ↦ inl (known id none g, q.carried id ∙ n)
      | inr (ch, g, n) ↦ inr (ch, known id (some ch) g, q.carried id ∙ n)
    ];
    current = subst (λ r. All (IsCurrent codec r) t.jobs) (sym q.registry) q.current;
    single = λ a b ch g h. v.single a b ch (before a ch g) (before b ch h);
    told =
        λ id ch g. ap (λ m. sends ch m) q.sent ∙ v.told id ch (before id ch g) ∙ sym (q.removed id);
    once = λ ch. subst (λ m. sends ch m ≤ 1) (sym q.sent) (v.once ch);
  }
    where
      known :
          (id : String) (o : Option Channel)
          → get id s.world.registry ≡ o
          → get id t.world.registry ≡ o
      known id o g = ap (λ r. get id r) q.registry ∙ g

      before :
          (id : String) (ch : Channel)
          → get id t.world.registry ≡ some ch
          → get id s.world.registry ≡ some ch
      before id ch g = sym (ap (λ r. get id r) q.registry) ∙ g
