-- ===== src/Llm/Retry.antt =====
-- internal/llm/provider.go: `doRequest` with `retryPolicy`, `calculateBackoff` and
-- `isRetryableStatusCode`. What the context, net/http and the random source do is an argument, by
-- the number of the attempt; the result has the sleeps between the attempts.
pub mod Settling
pub mod Backoff
use llm_request_balancer.Common.{
  ℕ, zero, suc, Bool, ◌&&◌, ◌||◌, Option, none, some, List, [], ◌∷◌, ltb, leb, ◌==◌, if◌then◌else◌,
}
use llm_request_balancer.Common.Int.{ℤ, pos, negsuc, ltb_ℤ}
use llm_request_balancer.Common.Float.{Float64}
use llm_request_balancer.Common.Time.{Duration}
use llm_request_balancer.Common.Int64.{times_int64, shift_one}
use llm_request_balancer.Llm.Types.{
  Result, ok, err, context_canceled, request_not_created, request_failed, body_not_read, bad_status,
}

pub record RetryPolicy : Type 0 where
  pub max_retries : ℤ
  pub min_backoff : Duration
  pub max_backoff : Duration

-- One pass of the loop: the context is done; the request cannot be made; it fails; its body cannot
-- be read to the end; or a response comes, with its status code and its body.
pub data Attempt (B : Type 0) : Type 0 where
  canceled not_created not_sent : Attempt B
  not_read : B → Attempt B
  received : ℕ → B → Attempt B

unfoldable pub is_retryable_status_code : ℕ → Bool
is_retryable_status_code code =
    (code == 429) || ((code == 500) || ((code == 502) || ((code == 503) || (code == 504))))

unfoldable pub is_success : ℕ → Bool
is_success code = leb 200 code && ltb code 300

-- The backoff before the jitter. The shift and the product wrap at 64 bits.
unfoldable pub base_backoff : ℕ → Duration → Duration → Duration
base_backoff attempt min_backoff max_backoff =
    let backoff = times_int64 min_backoff (shift_one attempt) in
    if ltb_ℤ max_backoff backoff then max_backoff else backoff

-- The passes of `for attempt := 0; attempt <= maxRetries; attempt++`.
abbrev pub loop_passes : ℤ → ℕ
loop_passes (pos n) = suc n
loop_passes (negsuc n) = 0

module _ {F : Type 0} ⦃fl : Float64 F⦄ where
  -- `random` is what `rand.Float64()` returns. The constants 0.8 and 0.4 are quotients.
  unfoldable pub calculate_backoff : F → ℕ → Duration → Duration → Duration
  calculate_backoff random attempt min_backoff max_backoff =
      let tenths = λ (n : ℕ). fl.div (fl.of_int (pos n)) (fl.of_int (pos 10)) in
      fl.to_int (
        fl.mul (fl.of_int (base_backoff attempt min_backoff max_backoff))
          (fl.add (tenths 8) (fl.mul (tenths 4) random)))

  module _ {B : Type 0} (policy : RetryPolicy) (send : ℕ → Attempt B) (random : ℕ → F) where
    abbrev pub pause : ℕ → Duration
    pause attempt = calculate_backoff (random attempt) attempt policy.min_backoff policy.max_backoff

    abbrev pub after_pause :
        Duration → List Duration × Result (Option B) → List Duration × Result (Option B)
    after_pause d r = (d ∷ r.0, r.1)

    -- The loop, with the number of its passes left, the attempt and `respBody`.
    unfoldable pub tries : ℕ → ℕ → Option B → List Duration × Result (Option B)
    tries zero attempt resp_body = ([], ok resp_body)
    tries (suc passes) attempt resp_body =
        let more = ltb_ℤ (pos attempt) policy.max_retries in
        let d = pause attempt in
        elim (send attempt) [
          | canceled ↦ ([], err context_canceled)
          | not_created ↦ ([], err request_not_created)
          | not_sent ↦
              if more
              then after_pause d (tries passes (suc attempt) resp_body)
              else ([], err request_failed)
          | not_read part ↦
              if more
              then after_pause d (tries passes (suc attempt) (some part))
              else ([], err body_not_read)
          | received code body ↦
              if is_success code
              then ([], ok (some body))
              else if more && is_retryable_status_code code
              then after_pause d (tries passes (suc attempt) (some body))
              else ([], err (bad_status code))
        ]

    unfoldable pub do_request : List Duration × Result (Option B)
    unfolding tries
    do_request = tries (loop_passes policy.max_retries) 0 none
