-- ===== src/RedisClient.antt =====
-- pkg/redisclient/redis_client.go: the wrapper around a client of go-redis, which is an argument
-- with a state of its own. A method gives that state and what it returns.
use llm_request_balancer.Common.{ℕ, ◌*◌, List, [], String}
use llm_request_balancer.Common.Int.{ℤ, pos}
use llm_request_balancer.Common.Time.{Duration, second}

-- The errors of go-redis: `redis.Nil`, and all others. `not_connected` is that of `NewClient`.
pub data RedisError (E : Type 0) : Type 0 where
  redis_nil : RedisError E
  broken : E → RedisError E
  not_connected : RedisError E → RedisError E

pub data Result (E A : Type 0) : Type 0 where
  ok : A → Result E A
  err : RedisError E → Result E A

pub record Config : Type 0 where
  pub addr : String
  pub password : String
  pub db : ℤ
  pub pool_size : ℤ

pub record Options : Type 0 where
  pub addr : String
  pub password : String
  pub db : ℤ
  pub pool_size : ℤ
  pub min_idle_conns : ℕ
  pub max_retries : ℕ
  pub dial_timeout : Duration
  pub read_timeout : Duration
  pub write_timeout : Duration
  pub pool_timeout : Duration

-- What is stored, pushed and passed to a script, and what a script replies, is left open as `V`.
pub record GoRedis (S E V : Type 0) : Type 0 where
  pub new_client : Options → S
  pub ping : S → S × Result E (Unit {0})
  pub close : S → S × Result E (Unit {0})
  pub get : String → S → S × Result E String
  pub set : String → String → Duration → S → S × Result E (Unit {0})
  pub incr : String → S → S × Result E ℤ
  pub decr : String → S → S × Result E ℤ
  pub decr_by : String → ℤ → S → S × Result E ℤ
  pub incr_by : String → ℤ → S → S × Result E ℤ
  pub del : String → S → S × Result E (Unit {0})
  pub expire : String → Duration → S → S × Result E (Unit {0})
  pub lpush : String → List V → S → S × Result E ℤ
  pub rpop : String → S → S × Result E String
  pub brpop : Duration → List String → S → S × Result E (List String)
  pub llen : String → S → S × Result E ℤ
  pub eval : String → List String → List V → S → S × Result E V

-- `redis.Nil` is answered by the zero value.
abbrev pub or_zero : {S E A : Type 0} → A → S × Result E A → S × Result E A
or_zero zero_value (s, err redis_nil) = (s, ok zero_value)
or_zero zero_value (s, r) = (s, r)

unfoldable pub options_of : Config → Options
options_of cfg = record {
  addr = cfg.addr;
  password = cfg.password;
  db = cfg.db;
  pool_size = cfg.pool_size;
  min_idle_conns = 10;
  max_retries = 5;
  dial_timeout = pos (5 * second);
  read_timeout = pos (3 * second);
  write_timeout = pos (3 * second);
  pool_timeout = pos (4 * second);
}

module _ {S E V : Type 0} (rdb : GoRedis S E V) where
  -- A client that does not answer stays open.
  unfoldable pub new_client : Config → S × Result E (Unit {0})
  unfolding options_of
  new_client cfg =
      let (s, pong) = rdb.ping (rdb.new_client (options_of cfg)) in
      elim pong [ ok _ ↦ (s, ok tt) | err e ↦ (s, err (not_connected e)) ]

  unfoldable pub close : S → S × Result E (Unit {0})
  close s = rdb.close s

  unfoldable pub get : String → S → S × Result E String
  get key s = or_zero "" (rdb.get key s)

  unfoldable pub set : String → String → Duration → S → S × Result E (Unit {0})
  set key value expiration s = rdb.set key value expiration s

  unfoldable pub incr : String → S → S × Result E ℤ
  incr key s = rdb.incr key s

  unfoldable pub decr : String → S → S × Result E ℤ
  decr key s = rdb.decr key s

  unfoldable pub decr_by : String → ℤ → S → S × Result E ℤ
  decr_by key value s = rdb.decr_by key value s

  unfoldable pub incr_by : String → ℤ → S → S × Result E ℤ
  incr_by key value s = rdb.incr_by key value s

  unfoldable pub del : String → S → S × Result E (Unit {0})
  del key s = rdb.del key s

  unfoldable pub expire : String → Duration → S → S × Result E (Unit {0})
  expire key expiration s = rdb.expire key expiration s

  unfoldable pub lpush : String → List V → S → S × Result E ℤ
  lpush key vs s = rdb.lpush key vs s

  unfoldable pub rpop : String → S → S × Result E String
  rpop key s = or_zero "" (rdb.rpop key s)

  unfoldable pub brpop : Duration → List String → S → S × Result E (List String)
  brpop timeout keys s = or_zero [] (rdb.brpop timeout keys s)

  unfoldable pub llen : String → S → S × Result E ℤ
  llen key s = rdb.llen key s

  unfoldable pub eval : String → List String → List V → S → S × Result E V
  eval script keys args s = rdb.eval script keys args s

  -- The client that the function has is closed behind it; the error of that is dropped.
  unfoldable pub with_redis_client :
      Config → (S → S × Result E (Unit {0})) → S × Result E (Unit {0})
  unfolding new_client close
  with_redis_client cfg fn =
      let (s, connected) = new_client cfg in
      elim connected [ err e ↦ (s, err e) | ok _ ↦ let (s', r) = fn s in ((close s').0, r) ]
