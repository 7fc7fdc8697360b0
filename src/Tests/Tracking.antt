-- ===== src/Tests/Tracking.antt =====
-- A request of the client of `Tests.Worker`: registered, queued, taken out and put back, taken out
-- again, looked up, allowed, answered by the service, and sent, with its `Remove` still to come; and
-- the same calls one after the other.
use llm_request_balancer.Common.{
  ◌≤◌, ◌≡◌, some, none, String, arith, ℕ, refl, [], ◌∷◌, concat, str_eq,
}
use llm_request_balancer.Common.Int.{pos, ◌+ℤ◌, ◌-ℤ◌}
use llm_request_balancer.Common.Dict.{lookup, insert}
use llm_request_balancer.Common.Float.{Fixed, fixed_float}
use llm_request_balancer.Llm.Types.{Response}
use llm_request_balancer.Limiter.Bucket.{
  TokenBucket, bucket_limiter, allow, allow_n, refill, consume,
}
use llm_request_balancer.Queue.Item.{QueueItem, is_ready}
use llm_request_balancer.Queue.Memory.{
  InMemoryFifo, enqueue, stamp, dequeue_ready, ready_index, remove_at,
}
use llm_request_balancer.Queue.Worker.Tracking.InMemory.{dequeue_ready-Step}
use llm_request_balancer.Queue.Registry.{Channel, get, register, new_channel_registry}
use llm_request_balancer.Queue.Worker.{QueuedRequest, queued_request, request_item, Failure}
use llm_request_balancer.Queue.Worker.Colliding.{Submission, submit}
use llm_request_balancer.Queue.Worker.InMemory.{in_memory, held_items, in_memory-IsQueue}
use llm_request_balancer.Queue.Worker.Tracking.{
  System, taken, looked, calling, replying, removing, entering, sends, Reach, here, next, registers,
  enqueued, takes_out, puts_back, looks_up, allows, responds, replies,
}
use llm_request_balancer.Queue.Worker.Tracking.Counting.{removers}
use llm_request_balancer.Queue.Worker.Tracking.Reaching.{Reach-once}
use llm_request_balancer.Queue.Worker.Tracking.Whole.{
  without_job, process_item-Reach, enqueue_request-Reach,
}
use llm_request_balancer.Queue.Worker.Processing.{process_item, check_limit, call_service, deliver}
use llm_request_balancer.Tests.Worker.{
  times, marshal_known, marshal, unmarshal, the_request, codec, codec-IsCodec, service, world,
  settings,
}

abbrev State : Type 0
State = System InMemoryFifo (TokenBucket Fixed) ℕ ℕ ℕ

abbrev asked : Submission ℕ
asked = record {
  created_at = 1;
  stamped_at = 1;
  queued_at = 1;
  request = the_request 4;
  cost = pos 6;
  channel = 8;
}

abbrev its_item : QueueItem
its_item = stamp 1 (request_item 1 "1-2" (the_request 4) (pos 6) (4 ∷ 6 ∷ 1 ∷ []))

abbrev its_request : QueuedRequest ℕ
its_request = queued_request 1 "1-2" (the_request 4) (pos 6)

abbrev idle : State
idle = record {
  world = record (world) { registry = new_channel_registry };
  clients = [];
  jobs = [];
  lost = [];
}

abbrev registered : State
registered = record idle {
  world = record (idle.world) { registry = register "1-2" 8 new_channel_registry };
  clients = entering "1-2" asked ∷ [];
}

abbrev empty_queue : InMemoryFifo
empty_queue = record { items = []; max_size = 2; item_ttl = 100 }

abbrev full_queue : InMemoryFifo
full_queue = record { items = its_item ∷ []; max_size = 2; item_ttl = 100 }

abbrev waiting : State
waiting = record registered {
  world = record (registered.world) { queue = full_queue };
  clients = [];
}

abbrev in_hand : State
in_hand = record waiting {
  world = record (waiting.world) { queue = empty_queue };
  jobs = taken its_item ∷ [];
}

abbrev known : State
known = record in_hand { jobs = looked its_item its_request (the_request 4) (some 8) ∷ [] }

abbrev allowed : State
allowed = record known {
  world = record (known.world) { limiter = (allow 1 (pos 6) known.world.limiter).0 };
  jobs = calling its_request (the_request 4) (some 8) ∷ [];
}

abbrev the_response : Response Failure ℕ
the_response = record {
  provider_name = "openai";
  model_name = "gpt-4o";
  result = some 0;
  tokens_used = pos 3;
  error = none;
}

abbrev answered : State
answered = record allowed {
  world = record (allowed.world) { service = 1 };
  jobs = replying "1-2" (some 8) the_response ∷ [];
}

abbrev sent_off : State
sent_off = record answered {
  world = record (answered.world) { sent = (8, the_response) ∷ [] };
  jobs = removing "1-2" ∷ [];
}

run : Reach in_memory held_items bucket_limiter service codec settings idle sent_off
unfolding concat str_eq enqueue stamp marshal marshal_known unmarshal lookup insert ◌+ℤ◌ ◌-ℤ◌
    register get new_channel_registry request_item allow allow_n refill consume sends dequeue_ready
    ready_index remove_at is_ready
run =
    next {t = answered}
      (next {t = allowed}
        (next {t = known}
          (next {t = in_hand}
            (next {t = waiting}
              (next {t = in_hand}
                (next {t = waiting}
                  (next {t = registered}
                    (next here (registers "1-2" asked refl (λ other h. ground arith) refl))
                    (enqueued "1-2" asked (4 ∷ 6 ∷ 1 ∷ []) [] [] refl refl refl))
                  (takes_out its_item empty_queue [] [] refl refl))
                (puts_back its_item its_item full_queue [] [] refl refl refl))
              (dequeue_ready-Step bucket_limiter service codec settings 3 its_item waiting refl))
            (looks_up its_item its_request (the_request 4) [] [] refl refl refl))
          (allows its_item its_request (the_request 4) (some 8) 1 [] [] refl refl))
        (responds its_request (the_request 4) (some 8) the_response [] [] refl refl))
      (replies "1-2" 8 the_response [] [] refl)

Reach-once_example :
    ((ch : Channel) → sends ch sent_off.world.sent ≤ 1)
    × ((id : String) (ch : Channel)
        → get id sent_off.world.registry ≡ some ch
        → sends ch sent_off.world.sent ≡ removers held_items codec id sent_off)
Reach-once_example =
    Reach-once in_memory held_items bucket_limiter service codec settings codec-IsCodec
      in_memory-IsQueue idle sent_off refl refl refl refl refl refl run

process_item-Reach_example :
    Reach in_memory held_items bucket_limiter service codec settings in_hand (
      without_job in_memory held_items bucket_limiter service codec settings [] [] []
        (process_item in_memory bucket_limiter service codec settings times its_item
          in_hand.world).0)
unfolding concat str_eq stamp unmarshal lookup insert ◌+ℤ◌ ◌-ℤ◌ register get new_channel_registry
    request_item allow allow_n refill consume process_item check_limit call_service deliver
process_item-Reach_example =
    process_item-Reach in_memory held_items bucket_limiter service codec settings [] [] [] times
      its_item in_hand.world refl

enqueue_request-Reach_example :
    Reach in_memory held_items bucket_limiter service codec settings idle (
      without_job in_memory held_items bucket_limiter service codec settings [] [] []
        (submit in_memory codec "1-2" asked idle.world).0)
unfolding lookup get new_channel_registry sends
enqueue_request-Reach_example =
    enqueue_request-Reach in_memory held_items bucket_limiter service codec settings [] [] [] "1-2"
      asked idle.world refl (λ other h. ground arith) refl
