-- ===== src/Queue/Worker/Tracking/InRedis.antt =====
-- The `Dequeue` of `RedisFIFO` as steps of the system.
use llm_request_balancer.Common.{
  ◌≡◌, refl, sym, ap, ◌∙◌, subst, ◌⊎◌, inl, inr, Option, none, some, List, [], ◌∷◌, ◌++◌, arith,
  All, leb, Bool-cases, Option-cases,
}
use llm_request_balancer.Common.Link.{Link, answers, no_request, no_answer}
use llm_request_balancer.Common.Time.{Time}
use llm_request_balancer.Limiter.Types.{Limiter}
use llm_request_balancer.Queue.Item.{Bytes, QueueItem, ok, err, is_ready}
use llm_request_balancer.Queue.Memory.{stamp}
use llm_request_balancer.Queue.Redis.{
  RedisList, ItemCodec, RedisFifo, EnqueueLinks, push, enqueue, is_expired, Turn, Outcome, running,
  returned, dequeue, comes_back,
}
use llm_request_balancer.Queue.Redis.Accepting.{
  IsRedisList, IsItemCodec, decoded, decoded-append, redis_queue,
}
use llm_request_balancer.Queue.Worker.{Codec, Service, World, WorkerSettings}
use llm_request_balancer.Queue.Worker.Tracking.{
  Entering, Job, taken, System, takes_out, puts_back, loses, skips, Reach, next,
}

module _ {D : Type 0} (list : RedisList D) (elements : D → List Bytes) (items : ItemCodec)
    (q : RedisFifo) (lawful : IsRedisList list elements) (items_ok : IsItemCodec items) where
  abbrev held : D → List QueueItem
  held l = decoded items (elements l)

  push-cases :
      (k : Link) (b : Bytes) (l : D)
      → ((push list items k b l).0 ≡ l) ⊎ ((push list items k b l).0 ≡ list.rpush b l)
  unfolding push
  push-cases answers b l = inr refl
  push-cases no_request b l = inl refl
  push-cases no_answer b l = inr refl

  -- A put-back leaves the list as it is, or appends the item, whichever of its calls fail.
  put_back-cases :
      (links : EnqueueLinks) (now : Time) (item : QueueItem) (l : D)
      → ((enqueue list items q links now (some item) l).0 ≡ l)
        ⊎ (held (enqueue list items q links now (some item) l).0 ≡ held l ++ stamp now item ∷ [])
  unfolding enqueue
  put_back-cases links now item l = elim (Bool-cases (comes_back links.llen)) [
    | inr lost ↦ inl (rw (lost, enqueue) refl)
    | inl ans ↦ elim (Bool-cases (leb q.max_size (list.llen l))) [
      | inl full ↦ inl (rw (ans, enqueue) (rw (full, enqueue) refl))
      | inr room ↦ elim (Option-cases (items.marshal (stamp now item))) [
        | inl m ↦ inl (rw (ans, enqueue) (rw (room, enqueue) (rw (m, enqueue) refl)))
        | inr (b, m) ↦
            rw (ans, enqueue)
              (rw (room, enqueue)
                (rw (m, enqueue)
                  (elim (push-cases links.rpush b l) [
                    | inl e ↦ inl e
                    | inr e ↦ inr (
                        ap held e
                        ∙ ap (decoded items) (lawful.rpush-append b l)
                        ∙ decoded-append items (elements l) b (stamp now item)
                            (items_ok (stamp now item) b m))
                  ])))
      ]
    ]
  ]

  popped-held :
      (l rest : D) (b : Bytes) → list.lpop l ≡ some (b, rest) → elements l ≡ b ∷ elements rest
  popped-held l rest b p = elim (lawful.lpop-cases l) [
    | inl (n, e) ↦ absurd (ground (arith, p, n))
    | inr (b', rest', p', e) ↦
        let same : (b' ≡ b) × (rest' ≡ rest) = ground (arith, p, p') in
        subst (λ r. elements l ≡ b ∷ elements r) same.1
          (subst (λ c. elements l ≡ c ∷ elements rest') same.0 e)
  ]

  module _ {L S P R : Type 0} (limits : Limiter L) (llm : Service S P R) (codec : Codec P)
      (settings : WorkerSettings) (w : World D L S R) (clients : List (Entering P))
      (jobs : List (Job P R)) where
    abbrev at : D → List (Job P R) → List QueueItem → System D L S P R
    at l js lost = record {
      world = record w { queue = l };
      clients = clients;
      jobs = js;
      lost = lost;
    }

    abbrev Runs : System D L S P R → System D L S P R → Type 0
    Runs = Reach (redis_queue list items q) held limits llm codec settings

    -- Where a `Dequeue` that has come to `o` leaves the system.
    abbrev Lands : System D L S P R → Outcome D → Type 0
    Lands s o = elim o [
      | running l ↦ (lost : List QueueItem) × Runs s (at l jobs lost)
      | returned l r ↦ elim r [
        | ok item ↦ (lost : List QueueItem) × Runs s (at l (taken item ∷ jobs) lost)
        | err e ↦ (lost : List QueueItem) × Runs s (at l jobs lost)
      ]
    ]

    module _ (s : System D L S P R) (t : Turn D) (ts : List (Turn D)) (l : D)
        (lost : List QueueItem) (come : Runs s (at (t.others l) jobs lost)) (b : Bytes) (rest : D)
        (p : list.lpop (t.others l) ≡ some (b, rest)) where
      skipped : items.unmarshal b ≡ none → Runs s (at rest jobs lost)
      unfolding decoded
      skipped u = next {t = at (t.others l) jobs lost} come (
          skips rest
            (sym (ap (decoded items) (popped-held (t.others l) rest b p) ∙ rw (u, decoded) refl)))

      in_hand :
          (x : QueueItem) → items.unmarshal b ≡ some x → Runs s (at rest (taken x ∷ jobs) lost)
      unfolding decoded
      in_hand x u = next {t = at (t.others l) jobs lost} come (
          takes_out x rest [] (held rest)
            (ap (decoded items) (popped-held (t.others l) rest b p) ∙ rw (u, decoded) refl) refl)

      gone : (x : QueueItem) → items.unmarshal b ≡ some x → Runs s (at rest jobs (x ∷ lost))
      gone x u = next {t = at rest (taken x ∷ jobs) lost} (in_hand x u) (loses x [] jobs refl)

      any_gone : (more : List QueueItem) × Runs s (at rest jobs more)
      any_gone = elim (Option-cases (items.unmarshal b)) [
        | inl u ↦ (lost, skipped u)
        | inr (x, u) ↦ (x ∷ lost, gone x u)
      ]

      back :
          (x : QueueItem)
          → items.unmarshal b ≡ some x
          → (more : List QueueItem) × Runs s
              (at (enqueue list items q t.put_back t.put_back_at (some x) rest).0 jobs more)
      unfolding stamp
      back x u = elim (put_back-cases t.put_back t.put_back_at x rest) [
        | inl e ↦ (x ∷ lost, subst (λ n. Runs s (at n jobs (x ∷ lost))) (sym e) (gone x u))
        | inr e ↦ (
          lost,
          next {t = at rest (taken x ∷ jobs) lost} (in_hand x u)
              (puts_back x (stamp t.put_back_at x) _ [] jobs refl refl e),
        )
      ]

      -- The pass that pops the data `b`, if the passes behind it land.
      pass-Lands :
          ((m : D) (more : List QueueItem)
            → Runs s (at m jobs more)
            → Lands s (dequeue list items q ts m))
          → t.link ≡ answers
          → Lands s (dequeue list items q (t ∷ ts) l)
      unfolding dequeue
      pass-Lands again a =
          rw (a, dequeue)
            (rw (p, dequeue)
              (elim (Option-cases (items.unmarshal b)) [
                | inl u ↦ rw (u, dequeue) (lost, skipped u)
                | inr (x, u) ↦
                    rw (u, dequeue)
                      (elim (Bool-cases (is_expired q t.since_at x)) [
                        | inl e ↦ rw (e, dequeue) (again rest (x ∷ lost) (gone x u))
                        | inr e ↦
                            rw (e, dequeue)
                              (elim (Bool-cases (is_ready t.now_at x)) [
                                | inl n ↦ rw (n, dequeue) (lost, in_hand x u)
                                | inr n ↦ rw (n, dequeue) (again _ (back x u).0 (back x u).1)
                              ])
                      ])
              ]))

    -- The `Dequeue` of Redis, whichever of its calls fail and with no other client in between, is made
    -- of the steps: each item that it takes off the list is returned, put back at the end, or lost.
    dequeue-Lands :
        (ts : List (Turn D)) (s : System D L S P R) (l : D) (lost : List QueueItem)
        → All (λ (t : Turn D). (m : D) → t.others m ≡ m) ts
        → Runs s (at l jobs lost)
        → Lands s (dequeue list items q ts l)
    unfolding dequeue
    dequeue-Lands [] s l lost quiet r = (lost, r)
    dequeue-Lands (t ∷ ts) s l lost quiet r =
        go (λ m more r'. dequeue-Lands ts s m more quiet.1 r') t.link refl (list.lpop (t.others l))
          refl
      where
        come : Runs s (at (t.others l) jobs lost)
        come = subst (λ m. Runs s (at m jobs lost)) (sym (quiet.0 l)) r

        go :
            ((m : D) (more : List QueueItem)
              → Runs s (at m jobs more)
              → Lands s (dequeue list items q ts m))
            → (k : Link) → t.link ≡ k
            → (o : Option (Bytes × D)) → list.lpop (t.others l) ≡ o
            → Lands s (dequeue list items q (t ∷ ts) l)
        go again no_request a o p = rw (a, dequeue) (lost, come)
        go again no_answer a none p = rw (a, dequeue) (rw (p, dequeue) (lost, come))
        go again no_answer a (some (b, rest)) p =
            rw (a, dequeue) (rw (p, dequeue) (any_gone s t ts l lost come b rest p))
        go again answers a none p = rw (a, dequeue) (rw (p, dequeue) (lost, come))
        go again answers a (some (b, rest)) p = pass-Lands s t ts l lost come b rest p again a
