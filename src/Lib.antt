-- ===== src/Lib.antt =====
-- The LLM request balancer: a Go service that puts a rate limit and a queue before LLM providers.
--
-- The program. An HTTP handler (internal/handler) prices a request and hands it to the worker,
-- which registers the client's response channel under a new id
-- (internal/queue/channel_registry.go) and puts the request into a queue
-- (internal/queue/fifo_queue.go). The worker's loop (internal/queue/worker.go) takes items out, at
-- most `MaxConcurrent` at a time, asks the limiter for the tokens (internal/limiter), and either
-- calls the provider (internal/llm) and answers on the channel, or puts the item back with a
-- delay. Queue and limiter are in memory or in Redis.
--
-- The files.
--   Common: the shared names, integers (`Common.Int`, and `Common.Int64` with wrap-around), Go
--     maps with string keys (`Common.Dict`), time in nanoseconds (`Common.Time`), and `float64` as
--     an interface with laws (`Common.Float`).
--   Limiter: internal/limiter. `Limiter.Types` is limiter.go. `Limiter.Bucket` is
--     token_bucket.go: `refill`, `allow_n`, `get_tokens_available_n`, and in
--     `Limiter.Bucket.Reserve` the reservations: `reserve_n`, the goroutine (`fulfil`),
--     `cancel_at`, `begin_wait`, `end_wait`, `delay_from`, `wait_n`. `Limiter.Redis` is
--     redis_limiter.go: its Lua scripts and the methods that run them in `Scripts`, the
--     reservations in `Reserve`. Theorems are in the other children of the two.
--   Queue: internal/queue. `Queue.Item` has the items, `Queue.Memory` is `InMemoryFIFO`, with
--     its theorems in `Serving`, `Bounds`, `Order` and `Expiry`; `Queue.Memory.Waiting` has the
--     wait of its `Dequeue` as a step relation. `Queue.Redis` is `RedisFIFO`, with its theorems in
--     `Accepting`, `Serving` and `Spinning`. `Queue.Registry` is `ChannelRegistry`. `Queue.Worker`
--     is `EnqueueRequest`, and `Queue.Worker.Processing` is `processItem`, over the interfaces
--     that the worker holds (`Queue.Worker.InMemory` fills the one of the queue);
--     `Queue.Worker.Colliding` has what becomes of two requests with one id;
--     `Queue.Worker.Tracking` has the single accesses of any number of clients and goroutines,
--     interleaved, as a step relation (theorems in `Reaching`, over the lemmas of `Counting`,
--     `Quietly`, `Registered`, `Removing`, `Registering` and `Replying`; `Whole` has
--     `EnqueueRequest` and `processItem` as sequences of its steps, `InMemory` the in-memory
--     queue's `Dequeue` as one and its clean-up as a sequence, and `InRedis` the `Dequeue` of the
--     queue in Redis as a sequence); `Queue.Worker.Loop` is `processLoop` with its goroutines, as
--     a step relation.
--   Llm: internal/llm/provider.go. `Llm.Retry` is `doRequest` with its backoff (theorems in
--     `Settling` and `Backoff`), `Llm.Tokens` the token estimates (`Lengths`), `Llm.Provider` the
--     three providers (`Received`), `Llm.Service` the service (`Routing`), and `Llm.Json` the JSON
--     values.
--   Handler: internal/handler, and the token calculator of cmd/server/main.go
--     (`Handler.Pricing`). `Handler.Requests` has the checks of a request, and `Handler.Serving`
--     the rest of `ServeHTTP`, up to its wait and behind it (theorems in `Accepting`, `Cases`,
--     `Answering` and `Valid`).
--   Config: internal/config/config.go, the structs and `validate_config` (lemmas in
--     `Config.Valid`), and `LoadConfig` with the defaults in `Config.Loading`.
--   Server: `main` of cmd/server/main.go, from the configuration to the components that serve
--     (theorem in `Server.Starting`), and from there to its return, with the loop of the worker
--     beside it, in `Server.Stopping`; `Queue.Creating` is `NewQueue`.
--   Proxy: internal/proxy/reverse_proxy.go, which no other part of the program uses.
--     `Proxy.Message` has the messages of net/http, the modifiers and the options, `Proxy.Forward`
--     is `Forward` with its metrics, `Proxy.Tokens` its search for a number of tokens (theorem in
--     `Reading`, on the numerals of `Numerals`), and `Proxy.Handler` the handlers (theorem in
--     `Passing`).
--   Logger: internal/utils/logger.go, the levels, entries, timer and ids; `Logger.Contexts` has
--     the loggers and ids in contexts. RedisClient: pkg/redisclient/redis_client.go, which no
--     other part of the program uses.
--   Tests: evaluations at small inputs, and every theorem at an input that meets its conditions.
--
-- How state is modelled. A method that changes an object returns the new record. The mutex of an
-- object makes each locked section one step; where a call gives the lock up (the wait of
-- `Dequeue`, the sleep of a reservation) the sections are separate functions, and what other
-- goroutines do in between is an argument or a list of calls. `time.Now()` and `GenerateShortID()`
-- are arguments, one for each call that the code makes. A channel is a number. Logging is left
-- out.
--
-- Numbers. `int`, `int64` and `time.Duration` are integers without overflow, except where an
-- overflow matters: `calculateBackoff` wraps at 64 bits. `float64` is a type with the operations
-- that the code uses. Theorems about levels rest on laws of IEEE arithmetic (`IsMonotone`), the
-- refinement of the limiter in Redis on the exactness of whole seconds up to the year 2242
-- (`IsWhole`), and the theorem on the total of tokens on a bound of the error of rounding
-- (`IsRounded`). Fixed-point numbers meet the three, without any error of the last.
--
-- Not modelled: net/http and encoding/json (parameters of what uses them), the Redis server and
-- its client (a store with laws, and a link that may fail), Viper (an argument of `load_config`),
-- what zerolog does with an entry, and of `main` its flags and routes. The loops need no fuel:
-- each is a recursion on a list, or on a count.
pub mod Common
pub mod Config
pub mod Handler
pub mod Limiter
pub mod Llm
pub mod Logger
pub mod Proxy
pub mod Queue
pub mod RedisClient
pub mod Server
pub mod Tests
