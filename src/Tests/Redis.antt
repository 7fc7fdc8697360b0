-- ===== src/Tests/Redis.antt =====
-- The limiter in Redis, over a store that is a map of fixed-point numbers.
use llm_request_balancer.Common.{
  ℕ, ◌+◌, none, ltb, if◌then◌else◌, ◌*◌, ◌≡◌, refl, ◌⊎◌, true, false, Option, some, [], ◌∷◌, arith,
  String, str_eq,
}
use llm_request_balancer.Common.Int.{ℤ, pos, ◌-ℤ◌, ◌+ℤ◌}
use llm_request_balancer.Common.Dict.{Dict, lookup, insert, lookup-insert, lookup-insert_self}
use llm_request_balancer.Common.Float.{Fixed, fixed_float, Fixed-IsMonotone}
use llm_request_balancer.Common.Time.{second, hour}
use llm_request_balancer.Limiter.Types.{LimiterError, ok, err}
use llm_request_balancer.Limiter.Bucket.{TokenBucket, refill}
use llm_request_balancer.Limiter.Bucket
use llm_request_balancer.Common.Link.{answers, no_answer}
use llm_request_balancer.Limiter.Redis.Scripts.{
  RedisStore, RedisTokenBucket, allow_n, get_tokens_available_n, allow_script, refilled,
}
use llm_request_balancer.Limiter.Redis.Reserve.{
  RedisReservation, Pending, fulfil, end_wait, notified,
}
use llm_request_balancer.Limiter.Redis.Refinement.{IsStore, IsWhole, Represents, allow_n-Represents}
use llm_request_balancer.Limiter.Redis.Reserve as Redis
use llm_request_balancer.Limiter.Bucket.Reserve as Memory
use llm_request_balancer.Limiter.Bucket.Reserving.{IsServed, IsAwaited}
use llm_request_balancer.Limiter.Redis.Reserving.{NoWait, reserve_n-Represents}
use llm_request_balancer.Limiter.Redis.Isolation.{allow_n_other-Represents}
use llm_request_balancer.Limiter.Redis.Notified.{fulfil_tells_nothing}

-- A value, and the second in which it expires.
abbrev unexpired : ℕ → Option (Fixed × ℕ) → Option Fixed
unexpired now none = none
unexpired now (some (v, until)) = if ltb now until then some v else none

abbrev redis : RedisStore (Dict (Fixed × ℕ)) Fixed
redis = record {
  get = λ now k s. unexpired now (lookup k s);
  set = λ now k v e s. insert k (v, now + e) s;
}

redis-IsStore : IsStore redis
redis-IsStore = record {
  get-set = λ k v n m e s h l. rw (lookup-insert_self k (v, n + e) s) (ground (arith, l));
  get-set_other = λ k j v n m e s h. rw (lookup-insert k j (v, n + e) s, h) refl;
}

Fixed-IsWhole : IsWhole Fixed
unfolding ◌-ℤ◌
Fixed-IsWhole a b h l = ground arith

-- Two tokens per second, at most ten.
abbrev rl : RedisTokenBucket Fixed
rl = record {
  tokens_per_second = record { units = pos 2000000000 };
  bucket_size = pos 10;
  key_prefix = "limiter:";
  key_expiry = 24 * hour;
  waiters = ("k:r1", 3) ∷ [];
  waiters_by_id = ("r1", "k:r1") ∷ [];
  closed = [];
  next_channel = 4;
}

-- The bucket that no key stands for yet.
abbrev full : TokenBucket Fixed
full = record {
  tokens_per_second = record { units = pos 2000000000 };
  bucket_size = pos 10;
  available_tokens = record { units = pos 10000000000 };
  last_refill_time = 7 * second;
  waiters = [];
  waiters_by_id = [];
  closed = [];
  next_channel = 0;
}

empty-Represents : (key : String) → Represents redis rl key 7 [] full
unfolding lookup
empty-Represents key = record {
  same_rate = refl;
  same_size = refl;
  level = refl;
  last = 7;
  past = omega arith;
  stamp = refl;
  same_last = refl;
}

allow_n-Represents_example :
    let r = allow_n redis rl answers "k" (7 * second) (pos 4) [] in
    let b = Bucket.allow_n "k" (7 * second) (pos 4) full in
    let c = get_tokens_available_n redis rl answers "k" (7 * second) [] in
    let d = Bucket.get_tokens_available_n "k" (7 * second) full in
    (r.1 ≡ b.1)
    × Represents redis rl "k" 9 r.0 b.0
    × (c.1 ≡ ok d.1)
    × Represents redis rl "k" 9 c.0 d.0
allow_n-Represents_example =
    allow_n-Represents redis redis-IsStore Fixed-IsWhole rl "k" 7 9 (pos 4) [] full
      (empty-Represents "k") (omega arith) (omega arith, omega arith) refl

-- Twelve tokens out of ten: both wait.
reserve_n-Represents_example :
    let wait_reply : Fixed → Option ℤ = λ x. some (pos 1000) in
    let r = Redis.reserve_n redis wait_reply answers "k" (7 * second) 8 "r2" (pos 12) rl [] in
    let b = Memory.reserve_n "k" (7 * second) 8 "r2" (pos 12) full in
    Represents redis rl "k" 9 r.1 b.0
    × ((IsServed r.2 × IsServed b.1)
        ⊎ (IsAwaited b.1
            × (IsAwaited r.2
                ⊎ NoWait wait_reply (
                    fixed_float.div
                      (fixed_float.sub
                        (fixed_float.of_int (pos 12))
                        (refill (7 * second) full).available_tokens)
                      rl.tokens_per_second))))
reserve_n-Represents_example =
    reserve_n-Represents redis redis-IsStore Fixed-IsWhole rl "k" (λ x. some (pos 1000)) 7 8 "r2"
      (pos 12) [] full (empty-Represents "k") (omega arith) refl refl Fixed-IsMonotone 9
      (omega arith, omega arith)

apart : str_eq "k" "j" ≡ false
unfolding str_eq
apart = refl

allow_n_other-Represents_example :
    Represents redis rl "j" 7 (allow_n redis rl no_answer "k" (7 * second) (pos 4) []).0 full
    × Represents redis rl "j" 7
        (get_tokens_available_n redis rl no_answer "k" (7 * second) []).0
        full
allow_n_other-Represents_example =
    allow_n_other-Represents redis redis-IsStore rl "k" "j" apart no_answer (7 * second) (pos 4) 7
      [] full (empty-Represents "j")

-- Eleven tokens never fit into a bucket of ten.
abbrev pending : Pending
pending = record {
  key = "k";
  token_cost = pos 11;
  wait_ms = pos 500;
  waiter_key = "k:r1";
  reservation_id = "r1";
}

abbrev reservation : RedisReservation
reservation = record {
  tokens = pos 11;
  time_to_process = 7 * second;
  key = "k";
  reservation_id = "r1";
  valid = true;
}

has_channel : lookup pending.waiter_key rl.waiters ≡ some 3
unfolding lookup str_eq
has_channel = refl

fulfil_tells_nothing_example :
    let x = fulfil redis answers (8 * second) pending rl [] in
    let a = (allow_n redis rl answers "k" (8 * second) (pos 11) []).1 in
    (((a ≡ ok true) ⊎ (a ≡ ok false))
      × (x.0.closed ≡ 3 ∷ [])
      × ((end_wait notified reservation x.0).1 ≡ ok tt))
    ⊎ ((e : LimiterError) × (a ≡ err e) × (x.0 ≡ rl))
fulfil_tells_nothing_example =
    fulfil_tells_nothing redis answers (8 * second) pending reservation rl [] 3 has_channel

refused_and_told : (allow_n redis rl answers "k" (8 * second) (pos 11) []).1 ≡ ok false
unfolding allow_n allow_script refilled lookup ◌-ℤ◌ ◌+ℤ◌
refused_and_told = refl
