-- ===== src/Limiter/Bucket/Reserve.antt =====
-- internal/limiter/token_bucket.go: reservations, the goroutine that fulfils one, and the waits.
use llm_request_balancer.Common.{
  ℕ, ◌+◌, Bool, true, false, not, ◌&&◌, Option, none, some, ◌∷◌, String, if◌then◌else◌, concat,
}
use llm_request_balancer.Common.Int.{ℤ, pos, pos_part, ◌+ℤ◌, leb_ℤ, ltb_ℤ}
use llm_request_balancer.Common.Float.{Float64, nought}
use llm_request_balancer.Common.Dict.{lookup, insert, delete}
use llm_request_balancer.Common.Time.{Time, Duration, before, after, sub_time}
use llm_request_balancer.Limiter.Types.{
  rate_limited, invalid_token_cost, context_done, Result, ok, err,
}
use llm_request_balancer.Limiter.Bucket.{TokenBucket, refill, consume, allow_n}

pub record Reservation : Type 0 where
  pub tokens : ℤ
  pub time_to_process : Time
  pub reservation_id : String
  pub valid : Bool

-- What the goroutine of a reservation holds while it sleeps.
pub record Pending : Type 0 where
  pub token_cost : ℤ
  pub wait_time : Duration
  pub waiter_key : String
  pub reservation_id : String

unfoldable pub waiter_key_of : String → String → String
waiter_key_of key id = concat (concat key ":") id

-- `t.Add(d)`
unfoldable pub add_time : Time → Duration → Time
add_time t d = pos_part (pos t +ℤ d)

-- A wait that ends at once, or one on a channel.
pub data Waiting : Type 0 where
  returns : Result (Unit {0}) → Waiting
  blocks : ℕ → Waiting

module _ {F : Type 0} where
  -- A new channel under the waiter key, and the key under the id.
  unfoldable pub add_waiter : String → String → TokenBucket F → TokenBucket F
  add_waiter key id tb = record tb {
    waiters = insert key tb.next_channel tb.waiters;
    waiters_by_id = insert id key tb.waiters_by_id;
    next_channel = tb.next_channel + 1;
  }

  unfoldable pub drop_waiter : String → String → TokenBucket F → TokenBucket F
  drop_waiter key id tb = record tb {
    waiters = delete key tb.waiters;
    waiters_by_id = delete id tb.waiters_by_id;
  }

  -- The end of the goroutine: the channel is closed, if it is still there.
  unfoldable pub notify : Pending → TokenBucket F → TokenBucket F
  notify p tb = elim (lookup p.waiter_key tb.waiters) [
    | none ↦ tb
    | some ch ↦ drop_waiter p.waiter_key p.reservation_id (record tb { closed = ch ∷ tb.closed })
  ]

  -- `CancelAt`.
  unfoldable pub cancel_at : Time → Reservation → TokenBucket F → TokenBucket F × Reservation
  cancel_at now r tb =
      if r.valid && before now r.time_to_process
      then elim (lookup r.reservation_id tb.waiters_by_id) [
        | none ↦ (tb, r)
        | some key ↦ (drop_waiter key r.reservation_id tb, record r { valid = false })
      ]
      else (tb, r)

  -- `Wait` of a reservation, up to its `select`.
  unfoldable pub begin_wait : Time → Reservation → TokenBucket F → Waiting
  begin_wait now r tb =
      if not r.valid
      then returns (err rate_limited)
      else if after now r.time_to_process
      then returns (ok tt)
      else elim (lookup r.reservation_id tb.waiters_by_id) [
        | none ↦ returns (err rate_limited)
        | some key ↦ elim (lookup key tb.waiters) [
          | none ↦ returns (err rate_limited)
          | some ch ↦ blocks ch
        ]
      ]

-- `DelayFrom`.
unfoldable pub delay_from : Time → Reservation → Duration
delay_from now r =
    if not r.valid
    then pos 0
    else let delay = sub_time r.time_to_process now in if ltb_ℤ delay (pos 0) then pos 0 else delay

-- The two ways out of the `select` of `Wait`.
pub data Woken : Type 0 where
  canceled : Time → Woken
  notified : Woken

module _ {F : Type 0} where
  unfoldable pub end_wait : Woken → Reservation → TokenBucket F → TokenBucket F × Result (Unit {0})
  end_wait (canceled now) r tb = ((cancel_at now r tb).0, err context_done)
  end_wait notified r tb = (tb, ok tt)

module _ {F : Type 0} ⦃fl : Float64 F⦄ where
  -- `ReserveN`, with the id that `GenerateShortID` gives, and the goroutine that it starts. The first
  -- time is that of `refill`, and the second that of the reservation.
  unfoldable pub reserve_n :
      String
      → Time
      → Time
      → String
      → ℤ
      → TokenBucket F
      → TokenBucket F × Result (Reservation × Option Pending)
  reserve_n key now later id cost tb =
      if leb_ℤ cost (pos 0)
      then (tb, err invalid_token_cost)
      else let full = refill now tb in
        let needed = fl.sub (fl.of_int cost) full.available_tokens in
        let wait = fl.duration (fl.div needed full.tokens_per_second) in
        let waiter_key = waiter_key_of key id in
        if fl.le needed nought
        then (
          consume cost full,
          ok (
            record { tokens = cost; time_to_process = later; reservation_id = id; valid = true },
            none,
          ),
        )
        else (
          add_waiter waiter_key id full,
          ok (
            record {
              tokens = cost;
              time_to_process = add_time later wait;
              reservation_id = id;
              valid = true;
            },
            some (record {
              token_cost = cost;
              wait_time = wait;
              waiter_key = waiter_key;
              reservation_id = id;
            }),
          ),
        )

  -- The goroutine behind its sleep. It takes the tokens under the mutex, and then notifies.
  unfoldable pub take_reserved : Pending → TokenBucket F → TokenBucket F × Bool
  take_reserved p tb =
      if fl.le (fl.of_int p.token_cost) tb.available_tokens
      then (consume p.token_cost tb, true)
      else (tb, false)

  unfoldable pub fulfil : Pending → TokenBucket F → TokenBucket F
  fulfil p tb = let (tb', taken) = take_reserved p tb in if taken then notify p tb' else tb'

  -- `WaitN`, up to the `select` of the reservation that it makes. The times are those of `AllowN`,
  -- of `ReserveN`, and of the reservation's `Wait`.
  unfoldable pub wait_n :
      String
      → Time
      → Time
      → Time
      → Time
      → String
      → ℤ
      → TokenBucket F
      → TokenBucket F × Waiting × Option (Reservation × Option Pending)
  wait_n key allowed_at reserved_at later waited_at id cost tb =
      if leb_ℤ cost (pos 0)
      then (tb, returns (err invalid_token_cost), none)
      else let (tb', allowed) = allow_n key allowed_at cost tb in
        let (tb'', reserved) = reserve_n key reserved_at later id cost tb' in
        elim allowed [
          | err e ↦ (tb', returns (err e), none)
          | ok true ↦ (tb', returns (ok tt), none)
          | ok false ↦ elim reserved [
            | err e ↦ (tb'', returns (err e), none)
            | ok (r, p) ↦ (tb'', begin_wait waited_at r tb'', some (r, p))
          ]
        ]
