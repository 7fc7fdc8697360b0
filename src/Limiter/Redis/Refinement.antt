-- ===== src/Limiter/Redis/Refinement.antt =====
-- A bucket in Redis is a bucket of token_bucket.go.
use llm_request_balancer.Common.{
  ℕ, ◌*◌, ◌/◌, ◌+◌, ◌≤◌, ◌<◌, ◌==◌, ◌≡◌, refl, ap, ◌∙◌, Bool, true, false, some, arith, String,
  if◌then◌else◌, str_eq,
}
use llm_request_balancer.Common.Int.{ℤ, pos, leb_ℤ}
use llm_request_balancer.Common.Float.{Float64}
use llm_request_balancer.Common.Time.{Time, second, sub_time}
use llm_request_balancer.Limiter.Types.{Result, ok}
use llm_request_balancer.Limiter.Bucket.{TokenBucket, refill, consume}
use llm_request_balancer.Limiter.Bucket
use llm_request_balancer.Limiter.Redis.Keys.{bucket-timestamp}
use llm_request_balancer.Common.Link.{answers}
use llm_request_balancer.Limiter.Redis.Scripts.{
  RedisStore, RedisTokenBucket, or_else, get_bucket_key, get_timestamp_key, unix, refilled,
  allow_script, get_available_script, allow_n, get_tokens_available_n,
}

-- What the server does: a key that is set at the second `n` with an expiry of `e` seconds is there in
-- every second before `n + e`. What it is later is not said.
pub record IsStore {S F : Type 0} (redis : RedisStore S F) : Type 0 where
  pub get-set :
      (k : String) (v : F) (n m e : ℕ) (s : S)
      → n ≤ m
      → m < n + e
      → redis.get m k (redis.set n k v e s) ≡ some v
  pub get-set_other :
      (k j : String) (v : F) (n m e : ℕ) (s : S)
      → str_eq k j ≡ false
      → redis.get m j (redis.set n k v e s) ≡ redis.get m j s

-- 2 ^ 33 seconds after the epoch, in the year 2242: up to then durations since the epoch fit into
-- `time.Duration`.
abbrev pub last_second : ℕ
last_second = 8589934592

-- Differences of whole seconds are exact up to that time, as doubles are below 2 ^ 53.
abbrev pub IsWhole : (F : Type 0) ⦃fl : Float64 F⦄ → Type 0
IsWhole F ⦃fl⦄ =
    (a b : ℕ)
    → b ≤ a
    → a < last_second
    → fl.sub (fl.of_int (pos a)) (fl.of_int (pos b))
      ≡ fl.seconds (sub_time (a * second) (b * second))

module _ {S F : Type 0} ⦃fl : Float64 F⦄ (redis : RedisStore S F) (rl : RedisTokenBucket F)
    (key : String) where
  -- The bucket that the keys of `key` stand for, as a script reads them `n` seconds after the epoch.
  pub record Represents (n : ℕ) (s : S) (tb : TokenBucket F) : Type 0 where
    pub same_rate : tb.tokens_per_second ≡ rl.tokens_per_second
    pub same_size : tb.bucket_size ≡ rl.bucket_size
    pub level :
        or_else (redis.get n (get_bucket_key rl key) s) (fl.of_int rl.bucket_size)
        ≡ tb.available_tokens
    pub last : ℕ
    pub past : last ≤ n
    pub stamp :
        or_else (redis.get n (get_timestamp_key rl key) s) (fl.of_int (pos n))
        ≡ fl.of_int (pos last)
    pub same_last : tb.last_refill_time ≡ last * second

module _ {S F : Type 0} ⦃fl : Float64 F⦄ (redis : RedisStore S F) (lawful : IsStore redis)
    (whole : IsWhole F) (rl : RedisTokenBucket F) (key : String) where
  pub refilled_same :
      (n : ℕ) (s : S) (tb : TokenBucket F)
      → Represents redis rl key n s tb
      → n < last_second
      → refilled redis n
          (get_bucket_key rl key)
          (get_timestamp_key rl key)
          (fl.of_int rl.bucket_size)
          rl.tokens_per_second
          (fl.of_int (pos n))
          s
        ≡ (refill (n * second) tb).available_tokens
  unfolding refilled refill
  refilled_same n s tb h near =
      rw (h.level, refilled)
        (rw (h.stamp, refilled)
          (rw (whole n h.last h.past near, refilled)
            (rw (h.same_last, refill, h.same_rate, h.same_size) refl)))

  pub whole_second : (n : ℕ) → (n * second) / second ≡ n
  whole_second n = omega arith

  pub unix_whole : (n : ℕ) → unix (n * second) ≡ fl.of_int (pos n)
  unix_whole n = ap (λ k. fl.of_int (pos k)) (omega arith)

  -- A second in which what was written at the second `n` has not expired.
  abbrev pub Live : ℕ → ℕ → Type 0
  Live n m = (n ≤ m) × (m < n + rl.key_expiry / second)

  pub Live-expiry : (n m : ℕ) → Live n m → rl.key_expiry / second == 0 ≡ false
  Live-expiry n m h = ground (arith, h)

  -- What a script leaves behind, read before it expires.
  pub after_script :
      (n m : ℕ) (v : F) (s : S) (tb : TokenBucket F)
      → Represents redis rl key n s tb
      → Live n m
      → let e = rl.key_expiry / second in
        Represents redis rl key m
          (redis.set n
            (get_bucket_key rl key)
            v
            e
            (redis.set n (get_timestamp_key rl key) (fl.of_int (pos n)) e s))
          (record tb { available_tokens = v; last_refill_time = n * second })
  after_script n m v s tb h le = record {
    same_rate = h.same_rate;
    same_size = h.same_size;
    level = ap (λ o. or_else o (fl.of_int rl.bucket_size)) (lawful.get-set _ _ _ _ _ _ le.0 le.1);
    last = n;
    past = le.0;
    stamp =
        ap (λ o. or_else o (fl.of_int (pos m)))
          (lawful.get-set_other _ _ _ _ _ _ _ (bucket-timestamp rl key key)
            ∙ lawful.get-set _ _ _ _ _ _ le.0 le.1);
    same_last = refl;
  }

  -- The state that a script leaves, with the level v.
  abbrev pub left : ℕ → F → S → S
  left n v s =
      redis.set n (get_bucket_key rl key) v (rl.key_expiry / second)
        (redis.set n (get_timestamp_key rl key) (fl.of_int (pos n)) (rl.key_expiry / second) s)

  allow_n_by_level :
      (n : ℕ) (cost : ℤ) (s : S) (tb : TokenBucket F)
      → Represents redis rl key n s tb
      → n < last_second
      → rl.key_expiry / second == 0 ≡ false
      → leb_ℤ cost (pos 0) ≡ false
      → let v = (refill (n * second) tb).available_tokens in
        allow_n redis rl answers key (n * second) cost s ≡ (
          if fl.le (fl.of_int cost) v
          then (left n (fl.sub v (fl.of_int cost)) s, ok true)
          else (left n v s, ok false))
  unfolding allow_n allow_script
  allow_n_by_level n cost s tb h near lasts paid =
      rw (paid, allow_n)
        (rw (lasts, allow_n)
          (rw (whole_second n, allow_n)
            (rw (unix_whole n, allow_n)
              (rw (refilled_same n s tb h near, allow_n) (ground arith)))))

  bucket_by_level :
      (now : Time) (cost : ℤ) (tb : TokenBucket F)
      → leb_ℤ cost (pos 0) ≡ false
      → let full = refill now tb in
        Bucket.allow_n key now cost tb ≡ (
          if fl.le (fl.of_int cost) full.available_tokens
          then (consume cost full, ok true)
          else (full, ok false))
  unfolding Bucket.allow_n
  bucket_by_level now cost tb paid = rw (paid, Bucket.allow_n) refl

  available_by_level :
      (n : ℕ) (s : S) (tb : TokenBucket F)
      → Represents redis rl key n s tb
      → n < last_second
      → rl.key_expiry / second == 0 ≡ false
      → let v = (refill (n * second) tb).available_tokens in
        get_tokens_available_n redis rl answers key (n * second) s ≡ (left n v s, ok (fl.to_int v))
  unfolding get_tokens_available_n get_available_script
  available_by_level n s tb h near lasts =
      rw (lasts, get_tokens_available_n)
        (rw (whole_second n, get_tokens_available_n)
          (rw (unix_whole n, get_tokens_available_n)
            (rw (refilled_same n s tb h near, get_tokens_available_n) refl)))

  pub refill-left :
      (n m : ℕ) (s : S) (tb : TokenBucket F)
      → Represents redis rl key n s tb
      → Live n m
      → Represents redis rl key m
          (left n (refill (n * second) tb).available_tokens s)
          (refill (n * second) tb)
  unfolding refill
  refill-left n m s tb h le = after_script n m (refill (n * second) tb).available_tokens s tb h le

  decided :
      (n m : ℕ) (cost : ℤ) (s : S) (tb : TokenBucket F)
      → Represents redis rl key n s tb
      → Live n m
      → (enough : Bool)
      → let full = refill (n * second) tb in
        let v = full.available_tokens in
        let r : S × Result Bool =
          if enough
          then (left n (fl.sub v (fl.of_int cost)) s, ok true)
          else (left n v s, ok false) in
        let b : TokenBucket F × Result Bool =
          if enough then (consume cost full, ok true) else (full, ok false) in
        (r.1 ≡ b.1) × Represents redis rl key m r.0 b.0
  unfolding refill consume
  decided n m cost s tb h le true = (
    refl,
    after_script n m (fl.sub (refill (n * second) tb).available_tokens (fl.of_int cost)) s tb h le,
  )
  decided n m cost s tb h le false = (refl, refill-left n m s tb h le)

  -- A limiter in Redis is the one of token_bucket.go, until its keys expire: where the keys of `key`
  -- stand for a bucket, `AllowN` of a positive cost, answered by the server, answers as the bucket
  -- does at that second, and the keys stand for the bucket that it leaves, at every second before
  -- `KeyExpiry` is over; and so does `GetTokensAvailableN`. `KeyExpiry` is a second at least, the
  -- clocks of server and client agree to the second, and it is before the year 2242, up to which whole
  -- seconds are exact.
  pub allow_n-Represents :
      (n m : ℕ) (cost : ℤ) (s : S) (tb : TokenBucket F)
      → Represents redis rl key n s tb
      → n < last_second
      → Live n m
      → leb_ℤ cost (pos 0) ≡ false
      → let r = allow_n redis rl answers key (n * second) cost s in
        let b = Bucket.allow_n key (n * second) cost tb in
        let c = get_tokens_available_n redis rl answers key (n * second) s in
        let d = Bucket.get_tokens_available_n key (n * second) tb in
        (r.1 ≡ b.1)
        × Represents redis rl key m r.0 b.0
        × (c.1 ≡ ok d.1)
        × Represents redis rl key m c.0 d.0
  unfolding Bucket.get_tokens_available_n
  allow_n-Represents n m cost s tb h near le paid =
      let v = (refill (n * second) tb).available_tokens in
      let (same, kept) = decided n m cost s tb h le (fl.le (fl.of_int cost) v) in
      rw
        (
          available_by_level n s tb h near (Live-expiry n m le),
          allow_n_by_level n cost s tb h near (Live-expiry n m le) paid,
          bucket_by_level (n * second) cost tb paid,
        )
        (same, kept, refl, refill-left n m s tb h le)
