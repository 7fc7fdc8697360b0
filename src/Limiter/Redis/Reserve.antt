-- ===== src/Limiter/Redis/Reserve.antt =====
-- internal/limiter/redis_limiter.go: the reservations. The goroutine of `ReserveN` and the parts of
-- a reservation's `Wait` before and behind its `select` are steps of their own.
use llm_request_balancer.Common.{
  ℕ, ◌+◌, ◌/◌, Bool, true, false, not, ◌&&◌, Option, none, some, ◌∷◌, String, ◌==◌, if◌then◌else◌,
}
use llm_request_balancer.Common.Int.{ℤ, pos, negsuc, leb_ℤ, ltb_ℤ, times_ℤ}
use llm_request_balancer.Common.Dict.{lookup, insert, delete}
use llm_request_balancer.Common.Float.{Float64}
use llm_request_balancer.Common.Time.{Time, Duration, second, millisecond, before, after, sub_time}
use llm_request_balancer.Limiter.Types.{
  Result, ok, err, invalid_token_cost, rate_limited, context_done, bad_reply,
}
use llm_request_balancer.Limiter.Bucket.Reserve.{waiter_key_of, add_time}
use llm_request_balancer.Common.Link.{Link}
use llm_request_balancer.Limiter.Redis.Scripts.{
  RedisStore, run_script, RedisTokenBucket, get_bucket_key, get_timestamp_key, reserve_script, unix,
  allow_n,
}

pub record RedisReservation : Type 0 where
  pub tokens : ℤ
  pub time_to_process : Time
  pub key : String
  pub reservation_id : String
  pub valid : Bool

-- What the goroutine holds while it sleeps.
pub record Pending : Type 0 where
  pub key : String
  pub token_cost : ℤ
  pub wait_ms : ℤ
  pub waiter_key : String
  pub reservation_id : String

abbrev pub milliseconds : ℤ → Duration
milliseconds n = times_ℤ n (pos millisecond)

abbrev pub is_nought : ℤ → Bool
is_nought (pos n) = n == 0
is_nought (negsuc n) = false

module _ {F : Type 0} where
  unfoldable pub add_waiter : String → String → RedisTokenBucket F → RedisTokenBucket F
  add_waiter key id rl = record rl {
    waiters = insert key rl.next_channel rl.waiters;
    waiters_by_id = insert id key rl.waiters_by_id;
    next_channel = rl.next_channel + 1;
  }

  -- The close of the channel, if it is still there.
  unfoldable pub notify : Pending → RedisTokenBucket F → RedisTokenBucket F
  notify p rl = elim (lookup p.waiter_key rl.waiters) [
    | none ↦ rl
    | some ch ↦ record rl {
      closed = ch ∷ rl.closed;
      waiters = delete p.waiter_key rl.waiters;
      waiters_by_id = delete p.reservation_id rl.waiters_by_id;
    }
  ]

  unfoldable pub cancel_at :
      Time → RedisReservation → RedisTokenBucket F → RedisTokenBucket F × RedisReservation
  cancel_at now r rl =
      if r.valid && before now r.time_to_process
      then elim (lookup r.reservation_id rl.waiters_by_id) [
        | none ↦ (rl, r)
        | some key ↦ (
          record rl {
            waiters = delete key rl.waiters;
            waiters_by_id = delete r.reservation_id rl.waiters_by_id;
          },
          record r { valid = false },
        )
      ]
      else (rl, r)

module _ {S F : Type 0} ⦃fl : Float64 F⦄ (redis : RedisStore S F) (wait_reply : F → Option ℤ) where
  -- `wait_reply` is `math.ceil` of the seconds times 1000, `tostring` and `strconv.ParseInt`. The
  -- times are that of the script's argument and that of the reservation.
  unfoldable pub reserve_n :
      Link
      → String
      → Time
      → Time
      → String
      → ℤ
      → RedisTokenBucket F
      → S
      → RedisTokenBucket F × S × Result (RedisReservation × Option Pending)
  reserve_n link key now later id cost rl s =
      if leb_ℤ cost (pos 0)
      then (rl, s, err invalid_token_cost)
      else let (s', reply) = run_script link (rl.key_expiry / second) s (
          reserve_script redis (now / second) (get_bucket_key rl key) (get_timestamp_key rl key)
            (fl.of_int rl.bucket_size) rl.tokens_per_second (unix now) (fl.of_int cost)
            (rl.key_expiry / second) s) in
        let at_once : RedisReservation = record {
          tokens = cost;
          time_to_process = later;
          key = key;
          reservation_id = id;
          valid = true;
        } in
        elim reply [
          | err e ↦ (rl, s', err e)
          | ok none ↦ (rl, s', ok (at_once, none))
          | ok (some seconds) ↦ elim (wait_reply seconds) [
            | none ↦ (rl, s', err bad_reply)
            | some wait_ms ↦ if is_nought wait_ms then (rl, s', ok (at_once, none)) else (
              add_waiter (waiter_key_of key id) id rl,
              s',
              ok (
                record at_once { time_to_process = add_time later (milliseconds wait_ms) },
                some (record {
                  key = key;
                  token_cost = cost;
                  wait_ms = wait_ms;
                  waiter_key = waiter_key_of key id;
                  reservation_id = id;
                }),
              ),
            )
          ]
        ]

module _ {S F : Type 0} ⦃fl : Float64 F⦄ (redis : RedisStore S F) where
  -- The goroutine behind its sleep: a failed call of `AllowN` ends it, and both answers of a call
  -- that succeeds close the channel.
  unfoldable pub fulfil : Link → Time → Pending → RedisTokenBucket F → S → RedisTokenBucket F × S
  fulfil link now p rl s =
      let (s', r) = allow_n redis rl link p.key now p.token_cost s in
      elim r [ err e ↦ (rl, s') | ok true ↦ (notify p rl, s') | ok false ↦ (notify p rl, s') ]

-- A wait that ends at once, or one on a channel.
pub data Waiting : Type 0 where
  returns : Result (Unit {0}) → Waiting
  blocks : ℕ → Waiting

-- The ways out of the `select`: the caller's context, the deadline 5 seconds behind the time of the
-- reservation, with the time that is read then, and the channel.
pub data Woken : Type 0 where
  canceled : Time → Woken
  deadline : Time → Time → Woken
  notified : Woken

module _ {F : Type 0} where
  unfoldable pub begin_wait : Time → RedisReservation → RedisTokenBucket F → Waiting
  begin_wait now r rl =
      if not r.valid
      then returns (err rate_limited)
      else if after now r.time_to_process
      then returns (ok tt)
      else elim (lookup r.reservation_id rl.waiters_by_id) [
        | none ↦ returns (err rate_limited)
        | some key ↦ elim (lookup key rl.waiters) [
          | none ↦ returns (err rate_limited)
          | some ch ↦ blocks ch
        ]
      ]

  unfoldable pub end_wait :
      Woken → RedisReservation → RedisTokenBucket F → RedisTokenBucket F × Result (Unit {0})
  end_wait (canceled now) r rl = ((cancel_at now r rl).0, err context_done)
  end_wait (deadline now later) r rl =
      if after now r.time_to_process
      then (rl, ok tt)
      else ((cancel_at later r rl).0, err rate_limited)
  end_wait notified r rl = (rl, ok tt)

unfoldable pub delay_from : Time → RedisReservation → Duration
delay_from now r =
    if not r.valid
    then pos 0
    else let delay = sub_time r.time_to_process now in if ltb_ℤ delay (pos 0) then pos 0 else delay

module _ {S F : Type 0} ⦃fl : Float64 F⦄ (redis : RedisStore S F) (wait_reply : F → Option ℤ) where
  -- `WaitN`, up to the `select` of the reservation that it makes. The links and times are those of
  -- `AllowN`, of `ReserveN` with its reservation, and of the reservation's `Wait`.
  unfoldable pub wait_n :
      Link
      → Link
      → String
      → Time
      → Time
      → Time
      → Time
      → String
      → ℤ
      → RedisTokenBucket F
      → S
      → RedisTokenBucket F × S × Waiting × Option (RedisReservation × Option Pending)
  unfolding reserve_n begin_wait
  wait_n allow_link reserve_link key allowed_at reserved_at later waited_at id cost rl s =
      if leb_ℤ cost (pos 0)
      then (rl, s, returns (err invalid_token_cost), none)
      else let (s', allowed) = allow_n redis rl allow_link key allowed_at cost s in
        let (rl', s'', reserved) =
          reserve_n redis wait_reply reserve_link key reserved_at later id cost rl s' in
        elim allowed [
          | err e ↦ (rl, s', returns (err e), none)
          | ok true ↦ (rl, s', returns (ok tt), none)
          | ok false ↦ elim reserved [
            | err e ↦ (rl', s'', returns (err e), none)
            | ok (r, p) ↦ (rl', s'', begin_wait waited_at r rl', some (r, p))
          ]
        ]
