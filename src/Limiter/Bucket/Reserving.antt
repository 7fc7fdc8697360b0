-- ===== src/Limiter/Bucket/Reserving.antt =====
-- How a reservation of token_bucket.go ends, by the level that it finds.
use llm_request_balancer.Common.{
  ◌≡◌, refl, inl, inr, true, false, Option, none, some, arith, String, Bool-cases,
}
use llm_request_balancer.Common.Int.{ℤ, pos, leb_ℤ}
use llm_request_balancer.Common.Float.{Float64, IsMonotone, nought}
use llm_request_balancer.Common.Time.{Time, Duration}
use llm_request_balancer.Limiter.Types.{Result, ok}
use llm_request_balancer.Limiter.Bucket.{TokenBucket, refill, consume}
use llm_request_balancer.Limiter.Bucket.Reserve.{
  Reservation, Pending, add_waiter, waiter_key_of, add_time, reserve_n,
}

-- A reservation whose tokens are taken, and one that is to be waited for.
abbrev pub IsServed : {A C : Type 0} → Result (A × Option C) → Type 0
IsServed {A} r = (a : A) × (r ≡ ok (a, none))

abbrev pub IsAwaited : {A C : Type 0} → Result (A × Option C) → Type 0
IsAwaited {A} {C} r = (a : A) × (c : C) × (r ≡ ok (a, some c))

module _ {F : Type 0} ⦃fl : Float64 F⦄ (key : String) (now later : Time) (id : String) (cost : ℤ)
    (tb : TokenBucket F) (paid : leb_ℤ cost (pos 0) ≡ false) (laws : IsMonotone F) where
  abbrev full : TokenBucket F
  full = refill now tb

  abbrev needed : F
  needed = fl.sub (fl.of_int cost) full.available_tokens

  abbrev reserved : Time → Reservation
  reserved t = record { tokens = cost; time_to_process = t; reservation_id = id; valid = true }

  pub reserve_n_enough :
      fl.le (fl.of_int cost) full.available_tokens ≡ true
      → ((reserve_n key now later id cost tb).0 ≡ consume cost full)
        × IsServed (reserve_n key now later id cost tb).1
  unfolding reserve_n
  reserve_n_enough e =
      let t = laws.sub_nonpos full.available_tokens cost e in
      (
        rw (paid, reserve_n) (rw (t, reserve_n) refl),
        (reserved later, rw (paid, reserve_n) (rw (t, reserve_n) refl)),
      )

  -- The test of the code fails where the level is below the cost.
  not_due : fl.le (fl.of_int cost) full.available_tokens ≡ false → fl.le needed nought ≡ false
  not_due e = elim (Bool-cases (fl.le needed nought)) [
    | inl t ↦ absurd (ground (arith, e, laws.le_of_sub full.available_tokens cost t))
    | inr t ↦ t
  ]

  abbrev wait : Duration
  wait = fl.duration (fl.div needed full.tokens_per_second)

  abbrev what_waits : Pending
  what_waits = record {
    token_cost = cost;
    wait_time = wait;
    waiter_key = waiter_key_of key id;
    reservation_id = id;
  }

  pub reserve_n_short :
      fl.le (fl.of_int cost) full.available_tokens ≡ false
      → ((reserve_n key now later id cost tb).0 ≡ add_waiter (waiter_key_of key id) id full)
        × IsAwaited (reserve_n key now later id cost tb).1
  unfolding reserve_n
  reserve_n_short e =
      let t = not_due e in
      (
        rw (paid, reserve_n) (rw (t, reserve_n) refl),
        (reserved (add_time later wait), what_waits, rw (paid, reserve_n) (rw (t, reserve_n) refl)),
      )
