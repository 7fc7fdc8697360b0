-- ===== src/Queue/Redis/Spinning.antt =====
-- `Dequeue` of the queue in Redis before an item that is not ready.
use llm_request_balancer.Common.{
  ◌≤◌, ◌≡◌, refl, ap, ◌∙◌, subst, inl, inr, false, some, List, [], ◌∷◌, ◌++◌, map, arith, leb,
}
use llm_request_balancer.Common.Link.{answers}
use llm_request_balancer.Common.Time.{Time, is_zero}
use llm_request_balancer.Queue.Item.{Bytes, QueueItem, Result, ok, is_ready}
use llm_request_balancer.Queue.Memory.{stamp}
use llm_request_balancer.Queue.Redis.{
  RedisList, ItemCodec, RedisFifo, push, enqueue, is_expired, Turn, running, dequeue,
}
use llm_request_balancer.Queue.Redis.Accepting.{IsRedisList, all_answer}

-- A pass at an instant at which no other client touches the list and the server answers.
abbrev pub alone : {L : Type 0} → Time → Turn L
alone now = record {
  others = λ l. l;
  link = answers;
  since_at = now;
  now_at = now;
  put_back_at = now;
  put_back = all_answer;
}

-- At all these instants the item lives, and waits.
abbrev pub Waits : RedisFifo → QueueItem → List Time → Type 0
Waits q x [] = Unit
Waits q x (now ∷ times) = (is_expired q now x ≡ false) × (is_ready now x ≡ false) × Waits q x times

stamp_set : (now : Time) (x : QueueItem) → is_zero x.enqueue_time ≡ false → stamp now x ≡ x
unfolding stamp
stamp_set now x h = rw (h, stamp) refl

module _ {L : Type 0} (list : RedisList L) (elements : L → List Bytes) (codec : ItemCodec)
    (q : RedisFifo) (lawful : IsRedisList list elements) where
  pop_one :
      (b : Bytes) (l : L)
      → elements l ≡ b ∷ []
      → (rest : L) × (list.lpop l ≡ some (b, rest)) × (elements rest ≡ [])
  pop_one b l h = elim (lawful.lpop-cases l) [
    | inl (p, e) ↦ absurd (ground (arith, h, e))
    | inr (c, rest, p, e) ↦
        let same : c ≡ b = ground (arith, h, e) in
        (rest, subst (λ x. list.lpop l ≡ some (x, rest)) same p, ground (arith, h, e))
  ]

  put_back :
      (now : Time) (x : QueueItem) (b : Bytes) (l : L)
      → codec.marshal x ≡ some b
      → is_zero x.enqueue_time ≡ false
      → elements l ≡ []
      → 1 ≤ q.max_size
      → enqueue list codec q all_answer now (some x) l ≡ (list.rpush b l, ok tt)
  unfolding enqueue push
  put_back now x b l m z e room =
      rw (full, enqueue) (rw (stamp_set now x z, enqueue) (rw (m, enqueue) refl))
    where
      full : leb q.max_size (list.llen l) ≡ false
      full = rw (lawful.llen-length l, e) (ground arith)

  one_pass :
      (now : Time) (x : QueueItem) (b : Bytes) (l rest : L) (ts : List (Turn L))
      → codec.unmarshal b ≡ some x
      → codec.marshal x ≡ some b
      → is_zero x.enqueue_time ≡ false
      → 1 ≤ q.max_size
      → is_expired q now x ≡ false
      → is_ready now x ≡ false
      → list.lpop l ≡ some (b, rest)
      → elements rest ≡ []
      → dequeue list codec q (alone now ∷ ts) l ≡ dequeue list codec q ts (list.rpush b rest)
  unfolding dequeue
  one_pass now x b l rest ts u m z room live wait p empty =
      rw (p, dequeue)
        (rw (u, dequeue)
          (rw (live, dequeue)
            (rw (wait, dequeue)
              (ap (λ (r : L × Result (Unit {0})). dequeue list codec q ts r.0)
                (put_back now x b rest m z empty room)))))

  -- Where the list holds one item that is delayed, `Dequeue` does not wait for it, nor return: each
  -- pass takes the item out and puts it back, as often as there are passes before its time.
  pub dequeue_spins :
      (times : List Time) (x : QueueItem) (b : Bytes) (l : L)
      → codec.unmarshal b ≡ some x
      → codec.marshal x ≡ some b
      → is_zero x.enqueue_time ≡ false
      → 1 ≤ q.max_size
      → Waits q x times
      → elements l ≡ b ∷ []
      → (l' : L) × (dequeue list codec q (map alone times) l ≡ running l') × (elements l' ≡ b ∷ [])
  unfolding dequeue
  dequeue_spins [] x b l u m z room h e = (l, refl, e)
  dequeue_spins (now ∷ times) x b l u m z room (live, wait, h) e =
      let (rest, p, empty) = pop_one b l e in
      let pushed : elements (list.rpush b rest) ≡ b ∷ [] =
        lawful.rpush-append b rest ∙ ap (λ bs. bs ++ b ∷ []) empty in
      let (l', d, e') = dequeue_spins times x b (list.rpush b rest) u m z room h pushed in
      (l', one_pass now x b l rest (map alone times) u m z room live wait p empty ∙ d, e')
