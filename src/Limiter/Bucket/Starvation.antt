-- ===== src/Limiter/Bucket/Starvation.antt =====
-- Reservations of `TokenBucket` that are not served, and tokens that a cancelled one still takes.
use llm_request_balancer.Common.{
  ◌≤◌, ◌≡◌, refl, inl, inr, true, false, none, some, List, [], ◌∷◌, arith, String, All, Bool-cases,
}
use llm_request_balancer.Common.Int.{ℤ}
use llm_request_balancer.Common.Float.{Float64, ◌≼◌, IsMonotone}
use llm_request_balancer.Common.Time.{Time, before}
use llm_request_balancer.Common.Dict.{lookup, lookup-delete_self}
use llm_request_balancer.Limiter.Types.{ok}
use llm_request_balancer.Limiter.Bucket.{TokenBucket, refill, consume}
use llm_request_balancer.Limiter.Bucket.Reserve.{
  Reservation, Pending, reserve_n, fulfil, take_reserved, notify, add_waiter, drop_waiter,
  cancel_at,
}
use llm_request_balancer.Limiter.Bucket.Bounds.{step-IsBounded, reserve_n-IsBounded}
use llm_request_balancer.Limiter.Bucket.Level.{IsBounded}
use llm_request_balancer.Limiter.Bucket.Calls.{
  Call, allows, reserves, counts, fulfils, cancels, step, run, Timely, AllTimely,
}

-- A call that does not refill the bucket.
abbrev pub IsQuiet : Call → Type 0
IsQuiet (allows key now cost) = ⊥
IsQuiet (reserves key now later id cost) = ⊥
IsQuiet (counts key now) = ⊥
IsQuiet (fulfils p) = Unit
IsQuiet (cancels now r) = Unit

module _ {F : Type 0} ⦃fl : Float64 F⦄ (laws : IsMonotone F) where
  notify-available :
      (p : Pending) (tb : TokenBucket F) → (notify p tb).available_tokens ≡ tb.available_tokens
  unfolding notify drop_waiter
  notify-available p tb = ground arith

  cancel_at-available :
      (now : Time) (r : Reservation) (tb : TokenBucket F)
      → (cancel_at now r tb).0.available_tokens ≡ tb.available_tokens
  unfolding cancel_at drop_waiter
  cancel_at-available now r tb = ground arith

  -- Without a refill the level does not rise to a cost that it is below.
  step_short :
      (tb : TokenBucket F) (c : Call) (cost : ℤ)
      → IsQuiet c
      → Timely tb c
      → IsBounded tb
      → fl.le (fl.of_int cost) tb.available_tokens ≡ false
      → fl.le (fl.of_int cost) (step tb c).available_tokens ≡ false
  unfolding step fulfil take_reserved consume
  step_short tb (fulfils p) cost q t b h =
      elim (Bool-cases (fl.le (fl.of_int p.token_cost) tb.available_tokens)) [
        | inl enough ↦
            rw (enough, step, fulfil, take_reserved)
              (rw notify-available
                (lower (laws.sub_le tb.available_tokens p.token_cost t b.nonneg)))
        | inr short ↦ rw (short, step, fulfil, take_reserved) h
      ]
    where
      lower : {x : F} → x ≼ tb.available_tokens → fl.le (fl.of_int cost) x ≡ false
      lower {x} k = elim (Bool-cases (fl.le (fl.of_int cost) x)) [
        | inl yes' ↦ cc (laws.le_trans _ _ _ yes' k)
        | inr no' ↦ no'
      ]
  step_short tb (cancels now r) cost q t b h = rw cancel_at-available h
  step_short tb (allows key now k) cost q t b h = elim q [ ]
  step_short tb (reserves key now later id k) cost q t b h = elim q [ ]
  step_short tb (counts key now) cost q t b h = elim q [ ]

  run_short :
      (tb : TokenBucket F) (cs : List Call) (cost : ℤ)
      → All IsQuiet cs
      → AllTimely tb cs
      → IsBounded tb
      → fl.le (fl.of_int cost) tb.available_tokens ≡ false
      → fl.le (fl.of_int cost) (run tb cs).available_tokens ≡ false
  unfolding run
  run_short tb [] cost q t b h = h
  run_short tb (c ∷ cs) cost q t b h =
      run_short (step tb c) cs cost q.1 t.1 (step-IsBounded laws tb c t.0 b)
        (step_short tb c cost q.0 t.0 b h)

  reserve_n_short :
      (key : String) (now later : Time) (id : String) (cost : ℤ) (tb : TokenBucket F)
      (r : Reservation) (p : Pending)
      → (reserve_n key now later id cost tb).1 ≡ ok (r, some p)
      → (p.token_cost ≡ cost)
        × (fl.le (fl.of_int cost) (reserve_n key now later id cost tb).0.available_tokens ≡ false)
  unfolding reserve_n add_waiter
  reserve_n_short key now later id cost tb r p e =
      ground (arith, laws.sub_nonpos (refill now tb).available_tokens cost)

  -- The goroutine of a reservation does not refill the bucket. So if nobody else does while it
  -- sleeps, it wakes in vain, however long it slept: it takes no tokens and closes no channel,
  -- and, as it tries only once, the reservation is never served. The level must be in its bounds and
  -- the clock not run backwards; of `float64` it uses the laws `IsMonotone`.
  pub reserve_n_starves :
      (key : String) (now later : Time) (id : String) (cost : ℤ) (tb : TokenBucket F)
      (r : Reservation) (p : Pending) (cs : List Call)
      → IsBounded tb
      → tb.last_refill_time ≤ now
      → (reserve_n key now later id cost tb).1 ≡ ok (r, some p)
      → All IsQuiet cs
      → AllTimely (reserve_n key now later id cost tb).0 cs
      → let tb' = run (reserve_n key now later id cost tb).0 cs in fulfil p tb' ≡ tb'
  unfolding fulfil take_reserved
  reserve_n_starves key now later id cost tb r p cs b h e q t =
      rw (short, fulfil, take_reserved) refl
    where
      after' : TokenBucket F
      after' = (reserve_n key now later id cost tb).0

      made : (p.token_cost ≡ cost) × (fl.le (fl.of_int cost) after'.available_tokens ≡ false)
      made = reserve_n_short key now later id cost tb r p e

      short : fl.le (fl.of_int p.token_cost) (run after' cs).available_tokens ≡ false
      short = rw (made.0) (
          run_short after' cs cost q t (reserve_n-IsBounded laws key now later id cost tb h b)
            made.1)

module _ {F : Type 0} ⦃fl : Float64 F⦄ where
  -- `CancelAt`, before the time of the reservation, invalidates it and takes its waiter out. But the
  -- goroutine is not told: if it finds the tokens when it wakes, it takes them all the same, for
  -- nobody, as it closes no channel.
  pub cancel_at_wastes :
      (now : Time) (r : Reservation) (p : Pending) (tb : TokenBucket F)
      → r.valid ≡ true
      → before now r.time_to_process ≡ true
      → r.reservation_id ≡ p.reservation_id
      → lookup p.reservation_id tb.waiters_by_id ≡ some p.waiter_key
      → fl.of_int p.token_cost ≼ tb.available_tokens
      → let (tb', r') = cancel_at now r tb in
        (r'.valid ≡ false)
        × (lookup r.reservation_id tb'.waiters_by_id ≡ none)
        × ((fulfil p tb').available_tokens ≡ fl.sub tb.available_tokens (fl.of_int p.token_cost))
        × ((fulfil p tb').closed ≡ tb.closed)
  unfolding cancel_at drop_waiter fulfil take_reserved notify consume
  cancel_at_wastes now r p tb valid early same at enough = (
    ground arith,
    ground (arith, lookup-delete_self p.reservation_id tb.waiters_by_id),
    ground (arith, lookup-delete_self p.waiter_key tb.waiters),
    ground (arith, lookup-delete_self p.waiter_key tb.waiters),
  )
