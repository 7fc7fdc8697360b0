-- ===== src/Limiter/Redis/Reserving.antt =====
-- A reservation in Redis takes the tokens when one of token_bucket.go does.
use llm_request_balancer.Common.{
  ℕ, ◌*◌, ◌/◌, ◌<◌, ◌==◌, ◌≡◌, refl, ap, ◌∙◌, ◌⊎◌, inl, inr, Bool, true, false, Option, none, some,
  String, Bool-cases, if◌then◌else◌,
}
use llm_request_balancer.Common.Int.{ℤ, pos, leb_ℤ}
use llm_request_balancer.Common.Float.{Float64, IsMonotone}
use llm_request_balancer.Common.Time.{Time, second}
use llm_request_balancer.Common.Link.{answers}
use llm_request_balancer.Limiter.Types.{Result}
use llm_request_balancer.Limiter.Bucket.{TokenBucket, refill, consume}
use llm_request_balancer.Limiter.Bucket.Reserve.{Reservation, add_waiter, waiter_key_of, add_time}
use llm_request_balancer.Limiter.Bucket.Reserve as Memory
use llm_request_balancer.Limiter.Bucket.Reserving.{
  IsServed, IsAwaited, reserve_n_enough, reserve_n_short,
}
use llm_request_balancer.Limiter.Redis.Scripts.{
  RedisStore, RedisTokenBucket, get_bucket_key, get_timestamp_key, unix, reserve_script, run_script,
}
use llm_request_balancer.Limiter.Redis.Reserve.{
  RedisReservation, Pending, milliseconds, is_nought, reserve_n,
}
use llm_request_balancer.Limiter.Redis.Refinement.{
  IsStore, IsWhole, Represents, refilled_same, unix_whole, after_script, left, refill-left,
  whole_second, last_second, Live,
}

-- The wait that the script replies is not a number, or 0.
abbrev pub NoWait : {F : Type 0} → (F → Option ℤ) → F → Type 0
NoWait wait_reply x =
    (wait_reply x ≡ none) ⊎ ((w : ℤ) × (wait_reply x ≡ some w) × (is_nought w ≡ true))

module _ {S F : Type 0} ⦃fl : Float64 F⦄ (redis : RedisStore S F) (lawful : IsStore redis)
    (whole : IsWhole F) (rl : RedisTokenBucket F) (key : String) (wait_reply : F → Option ℤ) where
  -- What the script replies.
  reserved_by_level :
      (n : ℕ) (cost : ℤ) (s : S) (tb : TokenBucket F)
      → Represents redis rl key n s tb
      → n < last_second
      → let v = (refill (n * second) tb).available_tokens in
        reserve_script redis
          ((n * second) / second)
          (get_bucket_key rl key)
          (get_timestamp_key rl key)
          (fl.of_int rl.bucket_size)
          rl.tokens_per_second
          (unix (n * second))
          (fl.of_int cost)
          (rl.key_expiry / second)
          s
        ≡ (if fl.le (fl.of_int cost) v
            then (left redis lawful whole rl key n (fl.sub v (fl.of_int cost)) s, none)
            else (
              left redis lawful whole rl key n v s,
              some (fl.div (fl.sub (fl.of_int cost) v) rl.tokens_per_second),
            ))
  unfolding reserve_script
  reserved_by_level n cost s tb h near = rw (whole_second redis lawful whole rl key n) (
      rw (unix_whole redis lawful whole rl key n)
        (rw (refilled_same redis lawful whole rl key n s tb h near, reserve_script) refl))

  -- The waiters of a bucket are not in its keys.
  Represents-add_waiter :
      (m : ℕ) (s : S) (tb : TokenBucket F) (waiter_key id : String)
      → Represents redis rl key m s tb
      → Represents redis rl key m s (add_waiter waiter_key id tb)
  unfolding add_waiter
  Represents-add_waiter m s tb waiter_key id h = record {
    same_rate = h.same_rate;
    same_size = h.same_size;
    level = h.level;
    last = h.last;
    past = h.past;
    stamp = h.stamp;
    same_last = h.same_last;
  }

  module _ (n : ℕ) (later : Time) (id : String) (cost : ℤ) (s : S) (tb : TokenBucket F)
      (h : Represents redis rl key n s tb) (near : n < last_second)
      (lasts : rl.key_expiry / second == 0 ≡ false) (paid : leb_ℤ cost (pos 0) ≡ false) where
    abbrev full : TokenBucket F
    full = refill (n * second) tb

    abbrev lacking : F
    lacking = fl.div (fl.sub (fl.of_int cost) full.available_tokens) rl.tokens_per_second

    abbrev redis_result : RedisTokenBucket F × S × Result (RedisReservation × Option Pending)
    redis_result = reserve_n redis wait_reply answers key (n * second) later id cost rl s

    abbrev memory_result : TokenBucket F × Result (Reservation × Option Memory.Pending)
    memory_result = Memory.reserve_n key (n * second) later id cost tb

    abbrev at_once : RedisReservation
    at_once = record {
      tokens = cost;
      time_to_process = later;
      key = key;
      reservation_id = id;
      valid = true;
    }

    abbrev script : S × Option F
    script =
        reserve_script redis ((n * second) / second) (get_bucket_key rl key)
          (get_timestamp_key rl key) (fl.of_int rl.bucket_size) rl.tokens_per_second
          (unix (n * second)) (fl.of_int cost) (rl.key_expiry / second) s

    -- The state behind the script.
    run_left :
        {r : S × Option F}
        → script ≡ r
        → (run_script answers (rl.key_expiry / second) s script).0 ≡ r.0
    run_left {r} e =
        ap (λ (x : S × Option F). (run_script answers (rl.key_expiry / second) s x).0) e
        ∙ rw lasts refl

    redis_enough :
        fl.le (fl.of_int cost) full.available_tokens ≡ true
        → (redis_result.1
            ≡ left redis lawful whole rl key n (fl.sub full.available_tokens (fl.of_int cost)) s)
          × IsServed redis_result.2
    unfolding reserve_n
    redis_enough e =
        let scripted : script ≡ (
          left redis lawful whole rl key n (fl.sub full.available_tokens (fl.of_int cost)) s,
          none,
        ) =
          reserved_by_level n cost s tb h near ∙ rw e refl in
        (
          rw (paid, reserve_n)
              (rw (lasts, reserve_n) (rw (scripted, reserve_n) (run_left scripted))),
          (at_once, rw (paid, reserve_n) (rw (lasts, reserve_n) (rw (scripted, reserve_n) refl))),
        )

    redis_short :
        fl.le (fl.of_int cost) full.available_tokens ≡ false
        → (redis_result.1 ≡ left redis lawful whole rl key n full.available_tokens s)
          × (IsAwaited redis_result.2 ⊎ NoWait wait_reply lacking)
    unfolding reserve_n
    redis_short e = go (wait_reply lacking) refl
      where
        scripted : script ≡ (left redis lawful whole rl key n full.available_tokens s, some lacking)
        scripted = reserved_by_level n cost s tb h near ∙ rw e refl

        waits : ℤ → RedisReservation
        waits w = record at_once { time_to_process = add_time later (milliseconds w) }

        what_waits : ℤ → Pending
        what_waits w = record {
          key = key;
          token_cost = cost;
          wait_ms = w;
          waiter_key = waiter_key_of key id;
          reservation_id = id;
        }

        step :
            (w : ℤ)
            → wait_reply lacking ≡ some w
            → (b : Bool) → is_nought w ≡ b
            → (redis_result.1 ≡ left redis lawful whole rl key n full.available_tokens s)
              × (IsAwaited redis_result.2 ⊎ NoWait wait_reply lacking)
        step w r true z = (
          rw (paid, reserve_n)
              (rw (lasts, reserve_n)
                (rw (scripted, reserve_n)
                  (rw (r, reserve_n) (rw (z, reserve_n) (run_left scripted))))),
          inr (inr (w, r, z)),
        )
        step w r false z = (
          rw (paid, reserve_n)
              (rw (lasts, reserve_n)
                (rw (scripted, reserve_n)
                  (rw (r, reserve_n) (rw (z, reserve_n) (run_left scripted))))),
          inl (
            waits w,
            what_waits w,
            rw (paid, reserve_n)
                (rw (lasts, reserve_n)
                  (rw (scripted, reserve_n) (rw (r, reserve_n) (rw (z, reserve_n) refl)))),
          ),
        )

        go :
            (r : Option ℤ)
            → wait_reply lacking ≡ r
            → (redis_result.1 ≡ left redis lawful whole rl key n full.available_tokens s)
              × (IsAwaited redis_result.2 ⊎ NoWait wait_reply lacking)
        go none r = (
          rw (paid, reserve_n)
              (rw (lasts, reserve_n)
                (rw (scripted, reserve_n) (rw (r, reserve_n) (run_left scripted)))),
          inr (inl r),
        )
        go (some w) r = step w r (is_nought w) refl

    taken :
        (m : ℕ)
        → Live redis lawful whole rl key n m
        → Represents redis rl key m
            (left redis lawful whole rl key n (fl.sub full.available_tokens (fl.of_int cost)) s)
            (consume cost full)
    unfolding consume refill
    taken m le =
        after_script redis lawful whole rl key n m (fl.sub full.available_tokens (fl.of_int cost)) s
          tb h le

    -- A reservation in Redis is one of token_bucket.go, until its keys expire: where the keys of `key`
    -- stand for a bucket, `ReserveN` of a positive cost, answered by the server, leaves the keys
    -- standing for the bucket that the one in memory leaves, at every second before `KeyExpiry` is
    -- over; and both take the tokens at once, or neither does, and then the
    -- one in memory is to be waited for, and so is the one in Redis unless the wait that the script
    -- replies is 0 or no number. `KeyExpiry` is a second at least, the clocks of server and client
    -- agree to the second, and it is before the year 2242, up to which whole seconds are exact. Of
    -- `float64` it uses the laws `IsMonotone`.
    pub reserve_n-Represents :
        (laws : IsMonotone F) (m : ℕ)
        → Live redis lawful whole rl key n m
        → Represents redis rl key m redis_result.1 memory_result.0
          × ((IsServed redis_result.2 × IsServed memory_result.1)
              ⊎ (IsAwaited memory_result.1
                  × (IsAwaited redis_result.2 ⊎ NoWait wait_reply lacking)))
    unfolding consume
    reserve_n-Represents laws m le =
        elim (Bool-cases (fl.le (fl.of_int cost) full.available_tokens)) [
          | inl e ↦
              let (a, b) = redis_enough e in
              let (c, d) = reserve_n_enough key (n * second) later id cost tb paid laws e in
              (rw (a, c) (taken m le), inl (b, d))
          | inr e ↦
              let (a, b) = redis_short e in
              let (c, d) = reserve_n_short key (n * second) later id cost tb paid laws e in
              (
                rw (a, c)
                    (Represents-add_waiter m _ full (waiter_key_of key id) id
                      (refill-left redis lawful whole rl key n m s tb h le)),
                inr (d, b),
              )
        ]
