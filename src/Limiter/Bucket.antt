-- ===== src/Limiter/Bucket.antt =====
-- internal/limiter/token_bucket.go: `TokenBucket`, with its reservations in the module `Reserve`. A method takes the times
-- that its calls of `time.Now()` return, and is one step of the state under its mutex. A channel
-- is known by a number, and `closed` has those that are closed.
pub mod Reserve
pub mod Calls
pub mod Level
pub mod Bounds
pub mod Balance
pub mod Grants
pub mod Reserved
pub mod Reserving
pub mod Starvation
use llm_request_balancer.Common.{ℕ, Bool, true, false, List, [], String, if◌then◌else◌}
use llm_request_balancer.Common.Int.{ℤ, pos, leb_ℤ}
use llm_request_balancer.Common.Float.{Float64, nought}
use llm_request_balancer.Common.Dict.{Dict}
use llm_request_balancer.Common.Time.{Time, sub_time}
use llm_request_balancer.Limiter.Types.{invalid_token_cost, Result, ok, err, LimiterConfig, Limiter}

pub record TokenBucket (F : Type 0) : Type 0 where
  pub tokens_per_second : F
  pub bucket_size : ℤ
  pub available_tokens : F
  pub last_refill_time : Time
  pub waiters : Dict ℕ
  pub waiters_by_id : Dict String
  pub closed : List ℕ
  pub next_channel : ℕ

module _ {F : Type 0} ⦃fl : Float64 F⦄ where
  unfoldable pub new_token_bucket : LimiterConfig F → Time → TokenBucket F
  new_token_bucket c now =
      let rate =
        if fl.le c.tokens_per_second nought then fl.of_int (pos 1) else c.tokens_per_second in
      let size =
        if leb_ℤ c.bucket_size (pos 0)
        then fl.to_int (fl.mul rate (fl.of_int (pos 60)))
        else c.bucket_size in
      record {
        tokens_per_second = rate;
        bucket_size = size;
        available_tokens = fl.of_int size;
        last_refill_time = now;
        waiters = [];
        waiters_by_id = [];
        closed = [];
        next_channel = 0;
      }

  unfoldable pub refill : Time → TokenBucket F → TokenBucket F
  refill now tb =
      let elapsed = fl.seconds (sub_time now tb.last_refill_time) in
      let tokens_to_add = fl.mul elapsed tb.tokens_per_second in
      record tb {
        last_refill_time = now;
        available_tokens =
            fl.min (fl.of_int tb.bucket_size) (fl.add tb.available_tokens tokens_to_add);
      }

  -- `tb.availableTokens -= float64(tokenCost)`
  unfoldable pub consume : ℤ → TokenBucket F → TokenBucket F
  consume cost tb = record tb { available_tokens = fl.sub tb.available_tokens (fl.of_int cost) }

  unfoldable pub allow_n : String → Time → ℤ → TokenBucket F → TokenBucket F × Result Bool
  allow_n key now cost tb =
      if leb_ℤ cost (pos 0)
      then (tb, err invalid_token_cost)
      else let full = refill now tb in
        if fl.le (fl.of_int cost) full.available_tokens
        then (consume cost full, ok true)
        else (full, ok false)

  unfoldable pub get_tokens_available_n : String → Time → TokenBucket F → TokenBucket F × ℤ
  get_tokens_available_n key now tb =
      let full = refill now tb in (full, fl.to_int full.available_tokens)

  unfoldable pub allow : Time → ℤ → TokenBucket F → TokenBucket F × Result Bool
  allow now cost tb = allow_n "default" now cost tb

  -- The interface of a limiter, filled by the bucket.
  abbrev pub bucket_limiter : Limiter (TokenBucket F)
  bucket_limiter = record { allow = allow }
