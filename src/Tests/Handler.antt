-- ===== src/Tests/Handler.antt =====
-- The handler before the worker and the queue of `Tests.Worker`.
use llm_request_balancer.Common.{ℕ, ◌*◌, ◌≡◌, refl, ◌↔◌, ◌⊎◌, Option, none, some, [], ◌∷◌, str_eq}
use llm_request_balancer.Common.Int.{ℤ, pos}
use llm_request_balancer.Common.Time.{Duration, second}
use llm_request_balancer.Common.Float.{fixed_float}
use llm_request_balancer.Llm.Types.{Request}
use llm_request_balancer.Queue.Item.{Bytes}
use llm_request_balancer.Queue.Memory.{enqueue, stamp}
use llm_request_balancer.Queue.Worker.{enqueue_request, request_item}
use llm_request_balancer.Queue.Worker.InMemory.{in_memory, held_items, in_memory-IsQueue}
use llm_request_balancer.Handler.Requests.{
  LlmRequest, Incoming, Refusal, status_of, refused, accepted, check_request, llm_request,
  request_timeout,
}
use llm_request_balancer.Handler.Requests.Accepting.{IsValid, check_request_iff}
use llm_request_balancer.Handler.Serving.{Fresh, waits, begin_serving}
use llm_request_balancer.Handler.Serving.Cases.{Refuses, Accepts, begin_serving_cases}
use llm_request_balancer.Tests.Worker.{marshal_known, marshal, codec, codec-IsCodec, world}

-- One byte is the payload of a request.
decode : Bytes → Option (LlmRequest ℕ)
decode (n ∷ []) = some (record {
  provider_name = "openai";
  model_name = "gpt-4o";
  payload = some n;
  max_wait_time = some (pos (3 * second));
})
decode _ = none

abbrev post : Incoming
post = record { method = "POST"; body = some (4 ∷ []) }

abbrev calculate : Request ℕ → Option ℤ
calculate q = some (pos 6)

abbrev five_seconds : Duration
five_seconds = pos (5 * second)

abbrev fresh : Fresh
fresh = record { created_at = 1; stamped_at = 1; queued_at = 1; id = "1-2"; channel = 7 }

check_request_iff_example :
    ((req : LlmRequest ℕ) → (check_request decode post ≡ accepted req) ↔ IsValid decode post req)
    × (((req : LlmRequest ℕ) × (check_request decode post ≡ accepted req))
        ⊎ ((why : Refusal) × (check_request decode post ≡ refused why)
            × ((status_of why ≡ 405) ⊎ (status_of why ≡ 400))))
check_request_iff_example = check_request_iff decode post

begin_serving_cases_example :
    let x = begin_serving in_memory codec calculate decode five_seconds fresh post world in
    Refuses in_memory codec held_items calculate decode five_seconds fresh post world x
    ⊎ Accepts in_memory codec held_items calculate decode five_seconds fresh post world x
begin_serving_cases_example =
    begin_serving_cases in_memory codec held_items calculate decode five_seconds fresh post
      codec-IsCodec in_memory-IsQueue world

waits_three_seconds :
    (begin_serving in_memory codec calculate decode five_seconds fresh post world).1
    ≡ waits 7 (pos (3 * second))
unfolding begin_serving check_request decode llm_request request_timeout enqueue_request marshal
    marshal_known enqueue stamp str_eq request_item
waits_three_seconds = refl
