-- ===== src/Limiter/Redis/Isolation.antt =====
-- The buckets of different keys are apart.
use llm_request_balancer.Common.{
  ℕ, ◌≡◌, refl, ap, ◌∙◌, Bool, true, false, String, if◌then◌else◌, str_eq,
}
use llm_request_balancer.Common.Int.{ℤ, pos, leb_ℤ}
use llm_request_balancer.Common.Float.{Float64}
use llm_request_balancer.Common.Time.{Time}
use llm_request_balancer.Limiter.Bucket.{TokenBucket}
use llm_request_balancer.Limiter.Redis.Keys.{
  bucket-bucket, bucket-timestamp, timestamp-bucket, timestamp-timestamp,
}
use llm_request_balancer.Common.Link.{Link, answers, no_request, no_answer}
use llm_request_balancer.Limiter.Redis.Scripts.{
  RedisStore, over_link, RedisTokenBucket, or_else, get_bucket_key, get_timestamp_key, allow_script,
  get_available_script, allow_n, get_tokens_available_n,
}
use llm_request_balancer.Limiter.Redis.Refinement.{IsStore, Represents}

module _ {S F : Type 0} ⦃fl : Float64 F⦄ (redis : RedisStore S F) (lawful : IsStore redis)
    (rl : RedisTokenBucket F) (key other : String) (apart : str_eq key other ≡ false) where
  -- The keys of `other` read the same.
  abbrev Same : S → S → Type 0
  Same s s' =
      (m : ℕ)
      → (redis.get m (get_bucket_key rl other) s' ≡ redis.get m (get_bucket_key rl other) s)
        × (redis.get m (get_timestamp_key rl other) s' ≡ redis.get m (get_timestamp_key rl other) s)

  written :
      (v w : F) (n e : ℕ) (s : S)
      → Same s
          (redis.set n (get_bucket_key rl key) v e (redis.set n (get_timestamp_key rl key) w e s))
  written v w n e s m = (
    lawful.get-set_other _ _ _ _ _ _ _ (bucket-bucket rl key other apart)
        ∙ lawful.get-set_other _ _ _ _ _ _ _ (timestamp-bucket rl key other),
    lawful.get-set_other _ _ _ _ _ _ _ (bucket-timestamp rl key other)
        ∙ lawful.get-set_other _ _ _ _ _ _ _ (timestamp-timestamp rl key other apart),
  )

  -- A script on the keys of `key`, over any link.
  linked :
      {A : Type 0} (link : Link) (s : S) (r : S × A) → Same s r.0 → Same s (over_link link s r).0
  linked answers s r h = h
  linked no_request s r h = λ m. (refl, refl)
  linked no_answer s r h = h

  either :
      {A : Type 0} (b : Bool) (s : S) (r r' : S × A)
      → Same s r.0
      → Same s r'.0
      → Same s (if b then r else r').0
  either true s r r' h k = h
  either false s r r' h k = k

  allow_n-Same :
      (link : Link) (now : Time) (cost : ℤ) (s : S)
      → Same s (allow_n redis rl link key now cost s).0
  unfolding allow_n allow_script
  allow_n-Same link now cost s =
      either (leb_ℤ cost (pos 0)) s _ _ (λ m. (refl, refl))
        (either _ s _ _ (λ m. (refl, refl))
          (linked link s _ (either _ s _ _ (written _ _ _ _ s) (written _ _ _ _ s))))

  available-Same :
      (link : Link) (now : Time) (s : S) → Same s (get_tokens_available_n redis rl link key now s).0
  unfolding get_tokens_available_n get_available_script
  available-Same link now s =
      either _ s _ _ (λ m. (refl, refl)) (linked link s _ (written _ _ _ _ s))

  kept :
      (m : ℕ) (s s' : S) (tb : TokenBucket F)
      → Represents redis rl other m s tb
      → Same s s'
      → Represents redis rl other m s' tb
  kept m s s' tb h same = record {
    same_rate = h.same_rate;
    same_size = h.same_size;
    level = ap (λ o. or_else o (fl.of_int rl.bucket_size)) (same m).0 ∙ h.level;
    last = h.last;
    past = h.past;
    stamp = ap (λ o. or_else o (fl.of_int (pos m))) (same m).1 ∙ h.stamp;
    same_last = h.same_last;
  }

  -- The limit is for each key its own: `AllowN` and `GetTokensAvailableN` of one key, whatever becomes
  -- of the call, leave the bucket that the keys of another stand for as it was.
  pub allow_n_other-Represents :
      (link : Link) (now : Time) (cost : ℤ) (m : ℕ) (s : S) (tb : TokenBucket F)
      → Represents redis rl other m s tb
      → Represents redis rl other m (allow_n redis rl link key now cost s).0 tb
        × Represents redis rl other m (get_tokens_available_n redis rl link key now s).0 tb
  allow_n_other-Represents link now cost m s tb h =
      (kept m s _ tb h (allow_n-Same link now cost s), kept m s _ tb h (available-Same link now s))
