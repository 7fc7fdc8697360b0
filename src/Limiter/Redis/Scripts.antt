-- ===== src/Limiter/Redis/Scripts.antt =====
-- internal/limiter/redis_limiter.go: the limiter's record, its Lua scripts, and `AllowN` and
-- `GetTokensAvailableN`, which run them. A script is one step of the server.
use llm_request_balancer.Common.{
  ℕ, ◌*◌, ◌/◌, Bool, true, false, not, Option, none, some, List, [], String, concat, if◌then◌else◌,
  str_eq, ◌==◌,
}
use llm_request_balancer.Common.Link.{Link, answers, no_request, no_answer}
use llm_request_balancer.Common.Int.{ℤ, pos, leb_ℤ, pos_part}
use llm_request_balancer.Common.Dict.{Dict}
use llm_request_balancer.Common.Float.{Float64, nought}
use llm_request_balancer.Common.Time.{Time, second, hour}
use llm_request_balancer.Limiter.Types.{
  LimiterType, redis, wrong_type, LimiterConfig, RedisOptions, Result, ok, err, invalid_token_cost,
  backend_unavailable, client_required,
}

-- `GET` and `SET ... EX`, at a second of the server's clock, which agrees with the clients'. The
-- numbers that the scripts store read back as they were written.
pub record RedisStore (S F : Type 0) : Type 0 where
  pub get : ℕ → String → S → Option F
  pub set : ℕ → String → F → ℕ → S → S

pub record RedisTokenBucket (F : Type 0) : Type 0 where
  pub tokens_per_second : F
  pub bucket_size : ℤ
  pub key_prefix : String
  pub key_expiry : ℕ
  pub waiters : Dict ℕ
  pub waiters_by_id : Dict String
  pub closed : List ℕ
  pub next_channel : ℕ

-- The options with their defaults.
unfoldable pub prefix_of : Option RedisOptions → String
prefix_of none = "limiter:"
prefix_of (some o) = if str_eq o.key_prefix "" then "limiter:" else o.key_prefix

unfoldable pub expiry_of : Option RedisOptions → ℕ
expiry_of none = 24 * hour
expiry_of (some o) = if leb_ℤ o.key_expiry (pos 0) then 24 * hour else pos_part o.key_expiry

abbrev pub is_redis : LimiterType → Bool
is_redis redis = true
is_redis _ = false

module _ {F : Type 0} ⦃fl : Float64 F⦄ where
  unfoldable pub new_redis_token_bucket : LimiterConfig F → Bool → Result (RedisTokenBucket F)
  unfolding prefix_of expiry_of
  new_redis_token_bucket c has_client =
      let rate =
        if fl.le c.tokens_per_second nought then fl.of_int (pos 1) else c.tokens_per_second in
      let size =
        if leb_ℤ c.bucket_size (pos 0)
        then fl.to_int (fl.mul rate (fl.of_int (pos 60)))
        else c.bucket_size in
      if not has_client
      then err client_required
      else ok (record {
        tokens_per_second = rate;
        bucket_size = size;
        key_prefix = prefix_of c.redis_options;
        key_expiry = expiry_of c.redis_options;
        waiters = [];
        waiters_by_id = [];
        closed = [];
        next_channel = 0;
      })

  unfoldable pub new_redis_limiter_with_client :
      LimiterConfig F → Bool → Result (RedisTokenBucket F)
  unfolding new_redis_token_bucket
  new_redis_limiter_with_client c has_client =
      if is_redis c.type then new_redis_token_bucket c has_client else err wrong_type

abbrev pub or_else : {A : Type 0} → Option A → A → A
or_else none d = d
or_else (some a) d = a

-- The state of the server, and the reply, after a call.
abbrev pub over_link : {S A : Type 0} → Link → S → S × A → S × Result A
over_link answers s (s', a) = (s', ok a)
over_link no_request s (s', a) = (s, err backend_unavailable)
over_link no_answer s (s', a) = (s', err backend_unavailable)

-- A script that ends in an error: `SET ... EX 0` is one, and the first write of each script.
abbrev pub run_script : {S A : Type 0} → Link → ℕ → S → S × A → S × Result A
run_script link key_expiry s r =
    let reply = over_link link s r in
    if key_expiry == 0 then (s, err backend_unavailable) else reply

module _ {F : Type 0} where
  unfoldable pub get_bucket_key : RedisTokenBucket F → String → String
  get_bucket_key rl key = concat rl.key_prefix (concat "bucket:" key)

  unfoldable pub get_timestamp_key : RedisTokenBucket F → String → String
  get_timestamp_key rl key = concat rl.key_prefix (concat "timestamp:" key)

-- `float64(time.Now().Unix())`; the instant counts from the epoch here.
abbrev pub unix : {F : Type 0} ⦃fl : Float64 F⦄ → Time → F
unix ⦃fl⦄ now = fl.of_int (pos (now / second))

module _ {S F : Type 0} ⦃fl : Float64 F⦄ (redis : RedisStore S F) where
  -- What the three scripts have in common: the level after the refill.
  unfoldable pub refilled : ℕ → String → String → F → F → F → S → F
  refilled at bucket_key timestamp_key bucket_size tokens_per_sec now s =
      let last_refill = or_else (redis.get at timestamp_key s) now in
      let current_tokens = or_else (redis.get at bucket_key s) bucket_size in
      let elapsed_seconds = fl.sub now last_refill in
      let tokens_to_add = fl.mul elapsed_seconds tokens_per_sec in
      fl.min bucket_size (fl.add current_tokens tokens_to_add)

  unfoldable pub allow_script : ℕ → String → String → F → F → F → F → ℕ → S → S × Bool
  allow_script at bucket_key timestamp_key bucket_size tokens_per_sec now token_cost key_expiry s =
      let current_tokens = refilled at bucket_key timestamp_key bucket_size tokens_per_sec now s in
      let s' = redis.set at timestamp_key now key_expiry s in
      if fl.le token_cost current_tokens
      then (redis.set at bucket_key (fl.sub current_tokens token_cost) key_expiry s', true)
      else (redis.set at bucket_key current_tokens key_expiry s', false)

  -- The number that comes back is cut to an integer by the server.
  unfoldable pub get_available_script : ℕ → String → String → F → F → F → ℕ → S → S × ℤ
  get_available_script at bucket_key timestamp_key bucket_size tokens_per_sec now key_expiry s =
      let new_tokens = refilled at bucket_key timestamp_key bucket_size tokens_per_sec now s in
      let s' = redis.set at timestamp_key now key_expiry s in
      (redis.set at bucket_key new_tokens key_expiry s', fl.to_int new_tokens)

  -- `none` for the text "0", and otherwise the seconds to wait, before they are made milliseconds.
  unfoldable pub reserve_script : ℕ → String → String → F → F → F → F → ℕ → S → S × Option F
  reserve_script at bucket_key timestamp_key bucket_size tokens_per_sec now token_cost key_expiry
        s =
      let current_tokens = refilled at bucket_key timestamp_key bucket_size tokens_per_sec now s in
      let s' = redis.set at timestamp_key now key_expiry s in
      if fl.le token_cost current_tokens
      then (redis.set at bucket_key (fl.sub current_tokens token_cost) key_expiry s', none)
      else (
        redis.set at bucket_key current_tokens key_expiry s',
        some (fl.div (fl.sub token_cost current_tokens) tokens_per_sec),
      )

  unfoldable pub allow_n : RedisTokenBucket F → Link → String → Time → ℤ → S → S × Result Bool
  unfolding get_bucket_key get_timestamp_key allow_script
  allow_n rl link key now cost s =
      if leb_ℤ cost (pos 0)
      then (s, err invalid_token_cost)
      else run_script link (rl.key_expiry / second) s (
          allow_script (now / second) (get_bucket_key rl key) (get_timestamp_key rl key)
            (fl.of_int rl.bucket_size) rl.tokens_per_second (unix now) (fl.of_int cost)
            (rl.key_expiry / second) s)

  unfoldable pub get_tokens_available_n :
      RedisTokenBucket F → Link → String → Time → S → S × Result ℤ
  unfolding get_bucket_key get_timestamp_key get_available_script
  get_tokens_available_n rl link key now s = run_script link (rl.key_expiry / second) s (
      get_available_script (now / second) (get_bucket_key rl key) (get_timestamp_key rl key)
        (fl.of_int rl.bucket_size) rl.tokens_per_second (unix now) (rl.key_expiry / second) s)
