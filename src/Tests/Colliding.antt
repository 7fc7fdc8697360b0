-- ===== src/Tests/Colliding.antt =====
-- Two requests with one id, before the worker of `Tests.Worker`.
use llm_request_balancer.Common.{
  ℕ, ◌≡◌, refl, some, [], ◌∷◌, ◌++◌, String, concat, str_eq, ◌==◌, if◌then◌else◌,
}
use llm_request_balancer.Common.Int.{pos}
use llm_request_balancer.Common.Float.{fixed_float}
use llm_request_balancer.Logger.{generate_short_id}
use llm_request_balancer.Limiter.Bucket.{bucket_limiter}
use llm_request_balancer.Queue.Item.{QueueItem}
use llm_request_balancer.Queue.Memory.{enqueue, stamp}
use llm_request_balancer.Queue.Registry.{get}
use llm_request_balancer.Queue.Worker.{enqueue_request, request_item}
use llm_request_balancer.Queue.Worker.Processing.{process_item}
use llm_request_balancer.Queue.Worker.Answers.{Ends}
use llm_request_balancer.Queue.Worker.Colliding.{Submission, submit, same_instant_crosses}
use llm_request_balancer.Queue.Worker.InMemory.{in_memory, held_items, in_memory-IsQueue}
use llm_request_balancer.Tests.Worker.{
  marshal_known, marshal, the_request, codec, codec-IsCodec, service, world, settings, times,
}

abbrev hex : ℕ → String
hex n = if n == 1 then "1" else "2"

abbrev first : Submission ℕ
first = record {
  created_at = 1;
  stamped_at = 1;
  queued_at = 1;
  request = the_request 4;
  cost = pos 6;
  channel = 8;
}

abbrev second : Submission ℕ
second = record first { request = the_request 5; channel = 9 }

same_instant_crosses_example :
    let id = generate_short_id hex (λ n. 2) 1 1 in
    let w' = (submit in_memory codec id first world).0 in
    let w'' = (submit in_memory codec id second w').0 in
    (get id w''.registry ≡ some 9)
    × (item : QueueItem) × (w'.queue.items ≡ world.queue.items ++ item ∷ [])
    × Ends service held_items settings times item
        (the_request 4)
        id
        9
        w''
        (process_item in_memory bucket_limiter service codec settings times item w'')
unfolding generate_short_id concat enqueue_request marshal marshal_known str_eq enqueue stamp
    request_item
same_instant_crosses_example =
    same_instant_crosses in_memory codec held_items codec-IsCodec in_memory-IsQueue bucket_limiter
      service settings times hex (λ n. 2) 1 1 first second world refl refl
