-- ===== src/Queue/Redis/Accepting.antt =====
-- The queue in Redis as the worker expects it.
use llm_request_balancer.Common.{
  ◌≡◌, refl, ap, ◌⊎◌, inl, inr, none, some, List, [], ◌∷◌, ◌++◌, arith, length, leb, Bool-cases,
  Option-cases,
}
use llm_request_balancer.Common.Link.{answers}
use llm_request_balancer.Common.Time.{Time}
use llm_request_balancer.Queue.Item.{
  Bytes, QueueItem, QueueError, ok, err, queue_full, not_serialized,
}
use llm_request_balancer.Queue.Memory.{stamp}
use llm_request_balancer.Queue.Redis.{RedisList, ItemCodec, RedisFifo, EnqueueLinks, push, enqueue}
use llm_request_balancer.Queue.Worker.{QueueMethods}
use llm_request_balancer.Queue.Worker.Answers.{IsQueue}

-- A list of the server, by its elements.
pub record IsRedisList {L : Type 0} (list : RedisList L) (elements : L → List Bytes) : Type 0 where
  pub llen-length : (l : L) → list.llen l ≡ length (elements l)
  pub rpush-append : (b : Bytes) (l : L) → elements (list.rpush b l) ≡ elements l ++ b ∷ []
  pub lpop-cases :
      (l : L)
      → ((list.lpop l ≡ none) × (elements l ≡ []))
        ⊎ ((b : Bytes) × (rest : L) × (list.lpop l ≡ some (b, rest))
            × (elements l ≡ b ∷ elements rest))

-- A decoder reads what the encoder made of an item.
abbrev pub IsItemCodec : ItemCodec → Type 0
IsItemCodec codec =
    (x : QueueItem) (b : Bytes) → codec.marshal x ≡ some b → codec.unmarshal b ≡ some x

-- The items of a list.
unfoldable pub decoded : ItemCodec → List Bytes → List QueueItem
decoded codec [] = []
decoded codec (b ∷ bs) =
    let rest = decoded codec bs in elim (codec.unmarshal b) [ none ↦ rest | some x ↦ x ∷ rest ]

pub decoded-append :
    (codec : ItemCodec) (bs : List Bytes) (b : Bytes) (x : QueueItem)
    → codec.unmarshal b ≡ some x
    → decoded codec (bs ++ b ∷ []) ≡ decoded codec bs ++ x ∷ []
unfolding decoded
decoded-append codec [] b x h = rw (h, decoded) refl
decoded-append codec (c ∷ bs) b x h = elim (Option-cases (codec.unmarshal c)) [
  | inl n ↦ rw (n, decoded) (decoded-append codec bs b x h)
  | inr (y, e) ↦ rw (e, decoded) (ap (λ ys. y ∷ ys) (decoded-append codec bs b x h))
]

abbrev pub all_answer : EnqueueLinks
all_answer = record { llen = answers; rpush = answers }

abbrev pub redis_queue : {L : Type 0} → RedisList L → ItemCodec → RedisFifo → QueueMethods L
redis_queue list codec q = record {
  enqueue = λ now l item. enqueue list codec q all_answer now item l;
}

module _ {L : Type 0} (list : RedisList L) (elements : L → List Bytes) (codec : ItemCodec)
    (q : RedisFifo) (lawful : IsRedisList list elements) (codec_ok : IsItemCodec codec) where
  -- The three ways of `Enqueue` with all calls answered.
  pub enqueue_ways :
      (now : Time) (item : QueueItem) (l : L)
      → ((e : QueueError) × (enqueue list codec q all_answer now (some item) l ≡ (l, err e)))
        ⊎ ((b : Bytes) × (codec.marshal (stamp now item) ≡ some b)
            × (enqueue list codec q all_answer now (some item) l ≡ (list.rpush b l, ok tt)))
  unfolding enqueue push
  enqueue_ways now item l = elim (Bool-cases (leb q.max_size (list.llen l))) [
    | inl t ↦ inl (queue_full, rw (t, enqueue) refl)
    | inr f ↦ elim (Option-cases (codec.marshal (stamp now item))) [
      | inl n ↦ inl (not_serialized, rw (f, enqueue) (rw (n, enqueue) refl))
      | inr (b, m) ↦ inr (b, m, rw (f, enqueue) (rw (m, enqueue) refl))
    ]
  ]

  accepts :
      (now : Time) (l : L) (item : QueueItem)
      → (enqueue list codec q all_answer now (some item) l).1 ≡ ok tt
      → decoded codec (elements (enqueue list codec q all_answer now (some item) l).0)
        ≡ decoded codec (elements l) ++ stamp now item ∷ []
  accepts now l item h = elim (enqueue_ways now item l) [
    | inl (e, w) ↦ absurd (ground (arith, h, w))
    | inr (b, m, w) ↦
        rw (w, lawful.rpush-append b l)
          (decoded-append codec (elements l) b (stamp now item) (codec_ok (stamp now item) b m))
  ]

  refuses :
      (now : Time) (l : L) (item : QueueItem) (e : QueueError)
      → (enqueue list codec q all_answer now (some item) l).1 ≡ err e
      → decoded codec (elements (enqueue list codec q all_answer now (some item) l).0)
        ≡ decoded codec (elements l)
  refuses now l item e h = elim (enqueue_ways now item l) [
    | inl (e', w) ↦ rw w refl
    | inr (b, m, w) ↦ absurd (ground (arith, h, w))
  ]

  -- `RedisFIFO`, while the server answers, is a queue as the worker expects it: an accepted item
  -- goes to the end with its `EnqueueTime` set, and a refused one leaves the queue as it was.
  pub redis_queue-IsQueue : IsQueue (redis_queue list codec q) (λ l. decoded codec (elements l))
  redis_queue-IsQueue = record { accepts = accepts; refuses = refuses }
