-- ===== src/Tests/RedisQueue.antt =====
-- The queue in Redis, over a list of byte slices.
use llm_request_balancer.Common.{
  ℕ, ◌*◌, ◌≡◌, refl, ◌⊎◌, inl, inr, Bool, true, Option, none, some, List, [], ◌∷◌, ◌++◌, map, arith,
  length, str_eq, str_eq_iff,
}
use llm_request_balancer.Common.Int.{ℤ, pos}
use llm_request_balancer.Common.Dict.{Dict}
use llm_request_balancer.Common.Time.{Time, hour}
use llm_request_balancer.Queue.Item.{Bytes, MetaValue, QueueItem, ok, is_ready}
use llm_request_balancer.Queue.Memory.{stamp}
use llm_request_balancer.Queue.Redis.{
  RedisList, ItemCodec, RedisFifo, running, returned, dequeue, enqueue, push,
}
use llm_request_balancer.Queue.Redis.Accepting.{
  IsRedisList, IsItemCodec, redis_queue, decoded, redis_queue-IsQueue,
}
use llm_request_balancer.Queue.Redis.Serving.{SomeTurn, dequeue-SomeTurn}
use llm_request_balancer.Queue.Redis.Spinning.{alone, dequeue_spins}
use llm_request_balancer.Queue.Worker.Answers.{IsQueue}

pop : List Bytes → Option (Bytes × List Bytes)
pop [] = none
pop (b ∷ bs) = some (b, bs)

first : List Bytes → Option Bytes
first [] = none
first (b ∷ bs) = some b

abbrev list : RedisList (List Bytes)
list = record {
  llen = length;
  rpush = λ b l. l ++ b ∷ [];
  lpop = pop;
  lindex = first;
  del = λ l. [];
}

pop_cases :
    (l : List Bytes)
    → ((pop l ≡ none) × (l ≡ []))
      ⊎ ((b : Bytes) × (rest : List Bytes) × (pop l ≡ some (b, rest)) × (l ≡ b ∷ rest))
unfolding pop
pop_cases [] = inl (refl, refl)
pop_cases (b ∷ bs) = inr (b, bs, refl, refl)

list-IsRedisList : IsRedisList list (λ l. l)
list-IsRedisList = record {
  llen-length = λ l. refl;
  rpush-append = λ b l. refl;
  lpop-cases = pop_cases;
}

-- The items that the codec knows: with the id "a" and no metadata.
abbrev known : Time → Time → ℕ → Bytes → QueueItem
known enqueued after priority payload = record {
  id = "a";
  payload = payload;
  metadata = [];
  priority = pos priority;
  enqueue_time = enqueued;
  process_after = after;
}

marshal_parts : Bool → Dict MetaValue → ℤ → Time → Time → Bytes → Option Bytes
marshal_parts true [] (pos p) enqueued after payload = some (enqueued ∷ after ∷ p ∷ payload)
marshal_parts _ _ _ enqueued after payload = none

unmarshal : Bytes → Option QueueItem
unmarshal (enqueued ∷ after ∷ p ∷ payload) = some (known enqueued after p payload)
unmarshal _ = none

abbrev codec : ItemCodec
codec = record {
  marshal = λ x.
      marshal_parts (str_eq x.id "a") x.metadata x.priority x.enqueue_time x.process_after
        x.payload;
  unmarshal = unmarshal;
}

codec-IsItemCodec : IsItemCodec codec
unfolding marshal_parts unmarshal
codec-IsItemCodec x b h = ground (arith, h, str_eq_iff x.id "a")

abbrev q : RedisFifo
q = record { queue_key = "queue:fifo"; max_size = 3; item_ttl = 24 * hour; key_expiry = 72 * hour }

redis_queue-IsQueue_example : IsQueue (redis_queue list codec q) (λ l. decoded codec l)
redis_queue-IsQueue_example =
    redis_queue-IsQueue list (λ l. l) codec q list-IsRedisList codec-IsItemCodec

-- Enqueued at 1 and delayed until 50.
abbrev delayed : Bytes
delayed = 1 ∷ 50 ∷ 0 ∷ 8 ∷ []

returns_at_50 :
    dequeue list codec q (alone 49 ∷ alone 50 ∷ []) (delayed ∷ [])
    ≡ returned [] (ok (known 1 50 0 (8 ∷ [])))
unfolding dequeue is_ready pop unmarshal enqueue marshal_parts str_eq push stamp
returns_at_50 = refl

dequeue-SomeTurn_example :
    SomeTurn q (known 1 50 0 (8 ∷ [])) (alone {L = List Bytes} 49 ∷ alone 50 ∷ [])
dequeue-SomeTurn_example =
    dequeue-SomeTurn list codec q (alone 49 ∷ alone 50 ∷ []) (delayed ∷ []) []
      (known 1 50 0 (8 ∷ [])) returns_at_50

dequeue_spins_example :
    (l' : List Bytes) × (dequeue list codec q (map alone (2 ∷ 3 ∷ 4 ∷ [])) (delayed ∷ [])
      ≡ running l')
    × (l' ≡ delayed ∷ [])
unfolding unmarshal marshal_parts str_eq is_ready
dequeue_spins_example =
    dequeue_spins list (λ l. l) codec q list-IsRedisList (2 ∷ 3 ∷ 4 ∷ []) (known 1 50 0 (8 ∷ []))
      delayed (delayed ∷ []) refl refl refl (omega arith)
      (refl, refl, (refl, refl, (refl, refl, tt))) refl
