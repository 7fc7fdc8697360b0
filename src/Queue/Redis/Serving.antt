-- ===== src/Queue/Redis/Serving.antt =====
-- What `Dequeue` of the queue in Redis returns, and when it does not return.
use llm_request_balancer.Common.{
  ◌≡◌, refl, sym, ◌∙◌, subst, ◌⊎◌, inl, inr, true, false, Option, none, some, List, [], ◌∷◌, arith,
  Bool-cases, Option-cases,
}
use llm_request_balancer.Common.Link.{Link, answers, no_request, no_answer}
use llm_request_balancer.Queue.Item.{
  Bytes, QueueItem, QueueError, ok, err, is_ready, not_deserialized, backend_unavailable,
  queue_empty,
}
use llm_request_balancer.Queue.Redis.{
  RedisList, ItemCodec, RedisFifo, enqueue, is_expired, Turn, Outcome, returned, dequeue,
}

-- Some pass found the item on the list, and good.
unfoldable pub SomeTurn : {L : Type 0} → RedisFifo → QueueItem → List (Turn L) → Type 0
SomeTurn q item [] = ⊥
SomeTurn q item (t ∷ ts) =
    ((is_expired q t.since_at item ≡ false) × (is_ready t.now_at item ≡ true)) ⊎ SomeTurn q item ts

module _ {L : Type 0} (list : RedisList L) (codec : ItemCodec) (q : RedisFifo) where
  -- One pass: an error, another pass, or an item.
  abbrev Passes : Turn L → List (Turn L) → Outcome L → Type 0
  Passes t ts r =
      ((l : L) × (e : QueueError) × (r ≡ returned l (err e)))
      ⊎ ((l : L) × (r ≡ dequeue list codec q ts l))
      ⊎ ((l : L) × (x : QueueItem) × (is_expired q t.since_at x ≡ false)
          × (is_ready t.now_at x ≡ true)
          × (r ≡ returned l (ok x)))

  popped :
      (t : Turn L) (ts : List (Turn L)) (l rest : L) (b : Bytes)
      → t.link ≡ answers
      → list.lpop (t.others l) ≡ some (b, rest)
      → Passes t ts (dequeue list codec q (t ∷ ts) l)
  unfolding dequeue
  popped t ts l rest b a p = elim (Option-cases (codec.unmarshal b)) [
    | inl u ↦ inl (rest, not_deserialized, rw (a, dequeue) (rw (p, dequeue) (rw (u, dequeue) refl)))
    | inr (x, u) ↦ elim (Bool-cases (is_expired q t.since_at x)) [
      | inl e ↦
          inr
            (inl (rest, rw (a, dequeue) (rw (p, dequeue) (rw (u, dequeue) (rw (e, dequeue) refl)))))
      | inr e ↦ elim (Bool-cases (is_ready t.now_at x)) [
        | inr r ↦ inr (
            inl (
              (enqueue list codec q t.put_back t.put_back_at (some x) rest).0,
              rw (a, dequeue)
                  (rw (p, dequeue) (rw (u, dequeue) (rw (e, dequeue) (rw (r, dequeue) refl)))),
            ))
        | inl r ↦ inr (
            inr (
              rest,
              x,
              e,
              r,
              rw (a, dequeue)
                  (rw (p, dequeue) (rw (u, dequeue) (rw (e, dequeue) (rw (r, dequeue) refl)))),
            ))
      ]
    ]
  ]

  passes : (t : Turn L) (ts : List (Turn L)) (l : L) → Passes t ts (dequeue list codec q (t ∷ ts) l)
  unfolding dequeue
  passes t ts l = go t.link refl (list.lpop (t.others l)) refl
    where
      go :
          (k : Link)
          → t.link ≡ k
          → (o : Option (Bytes × L)) → list.lpop (t.others l) ≡ o
          → Passes t ts (dequeue list codec q (t ∷ ts) l)
      go no_request a o p = inl (t.others l, backend_unavailable, rw (a, dequeue) refl)
      go no_answer a none p =
          inl (t.others l, backend_unavailable, rw (a, dequeue) (rw (p, dequeue) refl))
      go no_answer a (some (b, rest)) p =
          inl (rest, backend_unavailable, rw (a, dequeue) (rw (p, dequeue) refl))
      go answers a none p = inl (t.others l, queue_empty, rw (a, dequeue) (rw (p, dequeue) refl))
      go answers a (some (b, rest)) p = popped t ts l rest b a p

  -- An item that `Dequeue` returns was, in one of its passes, not expired and ready, whatever other
  -- clients do and whichever calls of the server fail.
  pub dequeue-SomeTurn :
      (ts : List (Turn L)) (l l' : L) (item : QueueItem)
      → dequeue list codec q ts l ≡ returned l' (ok item)
      → SomeTurn q item ts
  unfolding dequeue SomeTurn
  dequeue-SomeTurn [] l l' item h = absurd (ground (arith, h))
  dequeue-SomeTurn (t ∷ ts) l l' item h = elim (passes t ts l) [
    | inl (l'', e, p) ↦ absurd (ground (arith, h, p))
    | inr (inl (l'', p)) ↦ inr (dequeue-SomeTurn ts l'' l' item (sym p ∙ h))
    | inr (inr (l'', x, e, r, p)) ↦
        let same : x ≡ item = ground (arith, h, p) in
        inl (
          subst (λ y. is_expired q t.since_at y ≡ false) same e,
          subst (λ y. is_ready t.now_at y ≡ true) same r,
        )
  ]
