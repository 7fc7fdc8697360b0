-- ===== src/Limiter/Redis/Notified.antt =====
-- What the end of a reservation's wait says about its tokens.
use llm_request_balancer.Common.{ℕ, ◌≡◌, refl, ◌⊎◌, inl, inr, Bool, true, false, some, ◌∷◌}
use llm_request_balancer.Common.Dict.{lookup}
use llm_request_balancer.Common.Float.{Float64}
use llm_request_balancer.Common.Time.{Time}
use llm_request_balancer.Limiter.Types.{LimiterError, Result, ok, err}
use llm_request_balancer.Common.Link.{Link}
use llm_request_balancer.Limiter.Redis.Scripts.{RedisStore, RedisTokenBucket, allow_n}
use llm_request_balancer.Limiter.Redis.Reserve.{
  RedisReservation, Pending, notify, fulfil, notified, end_wait,
}

module _ {S F : Type 0} ⦃fl : Float64 F⦄ (redis : RedisStore S F) where
  -- The goroutine of a reservation that still has its channel closes it whether `AllowN` allows the
  -- tokens or refuses them, and `Wait` then returns without an error, so that it tells the two apart
  -- in no way. If the call of `AllowN` fails, the channel stays open and in both maps.
  pub fulfil_tells_nothing :
      (link : Link) (now : Time) (p : Pending) (r : RedisReservation) (rl : RedisTokenBucket F)
      (s : S) (ch : ℕ)
      → lookup p.waiter_key rl.waiters ≡ some ch
      → let x = fulfil redis link now p rl s in
        let a = (allow_n redis rl link p.key now p.token_cost s).1 in
        (((a ≡ ok true) ⊎ (a ≡ ok false))
          × (x.0.closed ≡ ch ∷ rl.closed)
          × ((end_wait notified r x.0).1 ≡ ok tt))
        ⊎ ((e : LimiterError) × (a ≡ err e) × (x.0 ≡ rl))
  unfolding fulfil notify end_wait
  fulfil_tells_nothing link now p r rl s ch h =
      go (allow_n redis rl link p.key now p.token_cost s).1 refl
    where
      go :
          (a : Result Bool)
          → (allow_n redis rl link p.key now p.token_cost s).1 ≡ a
          → let x = fulfil redis link now p rl s in
            (((a ≡ ok true) ⊎ (a ≡ ok false))
              × (x.0.closed ≡ ch ∷ rl.closed)
              × ((end_wait notified r x.0).1 ≡ ok tt))
            ⊎ ((e : LimiterError) × (a ≡ err e) × (x.0 ≡ rl))
      go (err e) k = inr (e, refl, rw (k, fulfil) refl)
      go (ok true) k = inl (inl refl, rw (k, fulfil) (rw (h, notify) refl), refl)
      go (ok false) k = inl (inr refl, rw (k, fulfil) (rw (h, notify) refl), refl)
