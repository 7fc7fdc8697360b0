-- ===== src/Llm/Retry/Settling.antt =====
-- How the loop of `doRequest` ends.
use llm_request_balancer.Common.{
  ℕ, zero, suc, ◌+◌, ◌≤◌, ◌≡◌, refl, ap, ◌⊎◌, inl, inr, Bool, true, false, not, ◌&&◌, Option, none,
  some, List, [], ◌∷◌, arith, if◌then◌else◌, Bool-cases,
}
use llm_request_balancer.Common.Int.{ℤ, pos, negsuc, ltb_ℤ}
use llm_request_balancer.Common.Float.{Float64}
use llm_request_balancer.Common.Time.{Duration}
use llm_request_balancer.Llm.Types.{
  Result, ok, err, context_canceled, request_not_created, request_failed, body_not_read, bad_status,
}
use llm_request_balancer.Llm.Retry.{
  RetryPolicy, Attempt, canceled, not_created, not_sent, not_read, received,
  is_retryable_status_code, is_success, pause, after_pause, tries, loop_passes, do_request,
}

-- An attempt after which the loop goes on, if it may.
abbrev pub is_transient : {B : Type 0} → Attempt B → Bool
is_transient canceled = false
is_transient not_created = false
is_transient not_sent = true
is_transient (not_read part) = true
is_transient (received code body) = not (is_success code) && is_retryable_status_code code

-- What an attempt means for the caller, if it is the last.
abbrev pub verdict : {B : Type 0} → Attempt B → Result (Option B)
verdict canceled = err context_canceled
verdict not_created = err request_not_created
verdict not_sent = err request_failed
verdict (not_read part) = err body_not_read
verdict (received code body) = if is_success code then ok (some body) else err (bad_status code)

-- `respBody` after an attempt that is not the last.
abbrev body_after : {B : Type 0} → Attempt B → Option B → Option B
body_after (not_read part) resp_body = some part
body_after (received code body) resp_body = some body
body_after a resp_body = resp_body

-- `count` attempts, from the one with number `first` on, all transient.
abbrev pub AllTransient : {B : Type 0} → (ℕ → Attempt B) → ℕ → ℕ → Type 0
AllTransient send first zero = Unit
AllTransient send first (suc count) =
    (is_transient (send first) ≡ true) × AllTransient send (suc first) count

module _ {F : Type 0} ⦃fl : Float64 F⦄ {B : Type 0} (policy : RetryPolicy) (send : ℕ → Attempt B)
    (random : ℕ → F) where
  abbrev pub pauses : ℕ → ℕ → List Duration
  pauses first zero = []
  pauses first (suc count) = pause policy send random first ∷ pauses (suc first) count

  -- The loop's last attempt, and what the result is.
  abbrev pub Settles : ℕ → ℕ → List Duration × Result (Option B) → Type 0
  Settles first most r =
      (count : ℕ) × (count ≤ most)
      × AllTransient send first count
      × ((count ≡ most) ⊎ (is_transient (send (first + count)) ≡ false))
      × (r ≡ (pauses first count, verdict (send (first + count))))

  tries_step :
      (passes attempt : ℕ) (resp_body : Option B)
      → tries policy send random (suc passes) attempt resp_body ≡ (
          if is_transient (send attempt) && ltb_ℤ (pos attempt) policy.max_retries
          then after_pause policy send random
              (pause policy send random attempt)
              (tries policy send random passes (suc attempt) (body_after (send attempt) resp_body))
          else ([], verdict (send attempt)))
  unfolding tries
  tries_step passes attempt resp_body = ground arith

  no_passes : (resp_body : Option B) → tries policy send random 0 0 resp_body ≡ ([], ok resp_body)
  unfolding tries
  no_passes resp_body = refl

  Settles_now :
      (most attempt : ℕ) (r : List Duration × Result (Option B))
      → (0 ≡ most) ⊎ (is_transient (send attempt) ≡ false)
      → r ≡ ([], verdict (send attempt))
      → Settles attempt most r
  Settles_now most attempt r h e =
      let same : attempt + 0 ≡ attempt = omega arith in (0, omega arith, tt, rw same h, rw same e)

  Settles_later :
      (most attempt : ℕ) (r : List Duration × Result (Option B))
      → is_transient (send attempt) ≡ true
      → Settles (suc attempt) most r
      → Settles attempt
          (suc most)
          (after_pause policy send random (pause policy send random attempt) r)
  Settles_later most attempt r t (count, le, all, last, e) =
      let same : attempt + suc count ≡ suc attempt + count = omega arith in
      (suc count, omega arith, (t, all), rw same (ground (arith, last)), rw same (rw e refl))

  may_retry :
      (m passes attempt : ℕ)
      → policy.max_retries ≡ pos m
      → attempt + suc passes ≡ m
      → ltb_ℤ (pos attempt) policy.max_retries ≡ true
  may_retry m passes attempt e h = rw e (ground arith)

  tries-Settles :
      (m passes attempt : ℕ) (resp_body : Option B)
      → policy.max_retries ≡ pos m
      → attempt + passes ≡ m
      → Settles attempt passes (tries policy send random (suc passes) attempt resp_body)
  tries-Settles m zero attempt resp_body e h =
      Settles_now 0 attempt _ (inl refl) (ground (arith, tries_step 0 attempt resp_body))
  tries-Settles m (suc passes) attempt resp_body e h =
      elim (Bool-cases (is_transient (send attempt))) [
        | inl t ↦
            rw (tries_step (suc passes) attempt resp_body, t, may_retry m passes attempt e h)
              (Settles_later passes attempt _ t (
                tries-Settles m passes (suc attempt) (body_after (send attempt) resp_body) e
                  (omega arith)))
        | inr f ↦
            Settles_now (suc passes) attempt _ (inr f)
              (rw (tries_step (suc passes) attempt resp_body, f) refl)
      ]

  -- With `maxRetries` not negative, `doRequest` makes at most `maxRetries` + 1 attempts, each but
  -- the last transient; the last is not transient, or there are no retries left, and the result
  -- is what it gives: the body of a response of class 2xx, or the error of its kind. The sleeps
  -- are the backoffs of the attempts but the last. With `maxRetries` negative, nothing is sent,
  -- and the result is a success without a body.
  pub do_request-Settles :
      ((m : ℕ) × (policy.max_retries ≡ pos m) × Settles 0 m (do_request policy send random))
      ⊎ ((n : ℕ) × (policy.max_retries ≡ negsuc n)
          × (do_request policy send random ≡ ([], ok none)))
  unfolding do_request
  do_request-Settles = settle policy.max_retries refl
    where
      passes_are : {n : ℤ} → policy.max_retries ≡ n → loop_passes policy.max_retries ≡ loop_passes n
      passes_are e = ap loop_passes e

      settle :
          (n : ℤ)
          → policy.max_retries ≡ n
          → ((m : ℕ) × (policy.max_retries ≡ pos m) × Settles 0 m (do_request policy send random))
            ⊎ ((k : ℕ) × (policy.max_retries ≡ negsuc k)
                × (do_request policy send random ≡ ([], ok none)))
      settle (pos m) e = inl (m, e, rw (passes_are e) (tries-Settles m m 0 none e (omega arith)))
      settle (negsuc n) e = inr (n, e, rw (passes_are e) (no_passes none))
