-- ===== src/Tests/Worker.antt =====
-- The worker over the in-memory queue, the token bucket, a service that always answers, and a codec
-- for the requests of one client.
use llm_request_balancer.Common.{
  ℕ, ◌+◌, ◌≤◌, ◌≡◌, refl, ◌≢◌, ◌⊎◌, inl, inr, Bool, true, false, ◌&&◌, Option, none, some, [], ◌∷◌,
  arith, String, length, if◌then◌else◌, str_eq, str_eq_iff, Option-cases,
}
use llm_request_balancer.Common.Int.{pos, negsuc}
use llm_request_balancer.Common.Float.{Fixed, fixed_float}
use llm_request_balancer.Common.Dict.{lookup, insert}
use llm_request_balancer.Llm.Types.{Request}
use llm_request_balancer.Limiter.Types
use llm_request_balancer.Limiter.Types.{Limiter}
use llm_request_balancer.Limiter.Bucket.{TokenBucket, bucket_limiter}
use llm_request_balancer.Queue.Item.{Bytes, QueueItem}
use llm_request_balancer.Queue.Memory.{InMemoryFifo}
use llm_request_balancer.Queue.Registry.{register, get, new_channel_registry}
use llm_request_balancer.Queue.Worker.{
  Codec, Service, World, WorkerSettings, Times, QueuedRequest, queued_request, responded,
  enqueue_request, request_item,
}
use llm_request_balancer.Queue.Worker.Processing.{process_item}
use llm_request_balancer.Queue.Worker.InMemory.{in_memory, held_items, in_memory-IsQueue}
use llm_request_balancer.Queue.Worker.Answers.{Ends, process_item-Ends}
use llm_request_balancer.Queue.Worker.Requests.{
  IsCodec, Enqueues, enqueue_request_cases, process_item_gate,
}
use llm_request_balancer.Handler.Serving.Answering.{Tells, end_serving-process_item}
use llm_request_balancer.Queue.Worker.Loop.{
  Phase, Pool, start, Step, Reach, started, after_step, held, Reach-bounded,
}

-- The requests that the codec knows: no payload, from the provider "openai" and the model "gpt-4o".
abbrev pub known : Request ℕ → Bool
known q = str_eq q.provider_name "openai" && str_eq q.model_name "gpt-4o"

abbrev pub the_request : ℕ → Request ℕ
the_request n = record { provider_name = "openai"; model_name = "gpt-4o"; payload = some n }

unfoldable pub marshal_known : Request ℕ → QueuedRequest ℕ → Option ℕ → Option Bytes
marshal_known q r none = none
marshal_known q r (some n) =
    if known q && str_eq r.request_id "1-2"
    then elim r.token_cost [ pos c ↦ some (n ∷ c ∷ r.created_at ∷ []) | negsuc c ↦ none ]
    else none

unfoldable pub marshal : QueuedRequest ℕ → Option Bytes
unfolding marshal_known
marshal r = elim r.request [ none ↦ none | some q ↦ marshal_known q r q.payload ]

unfoldable pub unmarshal : Bytes → Option (QueuedRequest ℕ)
unmarshal (n ∷ c ∷ t ∷ []) = some (queued_request t "1-2" (the_request n) (pos c))
unmarshal _ = none

abbrev pub codec : Codec ℕ
codec = record { marshal = marshal; unmarshal = unmarshal }

pub codec-IsCodec : IsCodec codec
unfolding marshal unmarshal
codec-IsCodec r b h = elim (Option-cases r.request) [
  | inl none' ↦ ground arith
  | inr (q, e) ↦ ground (
    arith,
    str_eq_iff q.provider_name "openai",
    str_eq_iff q.model_name "gpt-4o",
    str_eq_iff r.request_id "1-2",
  )
]

-- The service answers every request, and counts them.
abbrev pub service : Service ℕ ℕ ℕ
service = record {
  process = λ n q. (
    n + 1,
    q,
    responded (
        some (record {
          provider_name = q.provider_name;
          model_name = q.model_name;
          result = some n;
          tokens_used = pos 3;
          error = none;
        })),
  );
}

abbrev pub bucket : TokenBucket Fixed
bucket = record {
  tokens_per_second = record { units = pos 2000000000 };
  bucket_size = pos 10;
  available_tokens = record { units = pos 10000000000 };
  last_refill_time = 0;
  waiters = [];
  waiters_by_id = [];
  closed = [];
  next_channel = 0;
}

abbrev pub world : World InMemoryFifo (TokenBucket Fixed) ℕ ℕ
world = record {
  queue = record { items = []; max_size = 2; item_ttl = 100 };
  limiter = bucket;
  service = 0;
  registry = register "1-2" 7 new_channel_registry;
  sent = [];
}

abbrev pub settings : WorkerSettings
settings = record { polling_interval = 1; max_concurrent = 2; retry_delay = 5 }

abbrev pub times : Times
times = record { allowed_at = 1; stamped_at = 2; delayed_at = 2; queued_at = 3 }

abbrev queued : QueuedRequest ℕ
queued = queued_request 1 "1-2" (the_request 4) (pos 6)

abbrev queued_item : QueueItem
queued_item = request_item 1 "1-2" (the_request 4) (pos 6) (4 ∷ 6 ∷ 1 ∷ [])

enqueue_request_cases_example :
    let r = enqueue_request in_memory codec 1 1 1 "1-2" (the_request 4) (pos 6) 7 world in
    Enqueues {L = TokenBucket Fixed} {S = ℕ} {R = ℕ} in_memory codec held_items 1 1 1 "1-2"
      (the_request 4)
      (pos 6)
      7
      world
      r
    × ((other : String)
        → str_eq "1-2" other ≡ false
        → get other r.0.registry ≡ get other world.registry)
    × (r.0.sent ≡ world.sent)
enqueue_request_cases_example =
    enqueue_request_cases in_memory codec held_items 1 1 1 "1-2" (the_request 4) (pos 6) 7
      codec-IsCodec in_memory-IsQueue world

process_item-Ends_example :
    Ends service held_items settings times queued_item
      (the_request 4)
      "1-2"
      7
      world
      (process_item in_memory bucket_limiter service codec settings times queued_item world)
unfolding request_item unmarshal get register lookup insert str_eq
process_item-Ends_example =
    process_item-Ends in_memory bucket_limiter service held_items in_memory-IsQueue codec settings
      times queued_item queued (the_request 4) 7 world refl refl refl

end_serving-process_item_example :
    Tells bucket_limiter service times queued
      (the_request 4)
      7
      "h1"
      world
      (process_item in_memory bucket_limiter service codec settings times queued_item world).0
unfolding request_item unmarshal get register lookup insert str_eq
end_serving-process_item_example =
    end_serving-process_item in_memory bucket_limiter service settings times queued_item queued
      (the_request 4) 7 "h1" world codec refl refl refl

process_item_gate_example :
    let w' =
      (process_item in_memory bucket_limiter service codec settings times queued_item world).0 in
    let (l, r) = (bucket_limiter {F = Fixed}).allow 1 (pos 6) bucket in
    (w'.limiter ≡ l)
    × (((r ≡ Types.ok true) × (w'.service ≡ 1)) ⊎ ((r ≢ Types.ok true) × (w'.service ≡ 0)))
unfolding request_item unmarshal
process_item_gate_example =
    process_item_gate in_memory bucket_limiter service codec settings times queued_item queued
      (the_request 4) world refl refl

-- One item is dequeued with a slot taken, and its goroutine runs.
abbrev one_running : Pool
one_running = record {
  phase = Phase.head;
  semaphore = 1;
  wg = 1;
  running = queued_item ∷ [];
  released = [];
}

one_running-Reach : Reach 2 one_running
unfolding start
one_running-Reach =
    after_step (after_step started (Step.slot_taken refl (omega arith)))
      (Step.dequeued queued_item refl)

Reach-bounded_example : length one_running.running + held one_running.phase ≤ 2
Reach-bounded_example = Reach-bounded 2 one_running one_running-Reach
