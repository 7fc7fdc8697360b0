-- ===== src/Queue/Creating.antt =====
-- internal/queue/fifo_queue.go: `NewQueue`. It gives one of the two queues as an interface.
use llm_request_balancer.Common.{Bool}
use llm_request_balancer.Queue.Item.{
  in_memory, redis, other_type, QueueConfig, Result, ok, err, unsupported_type,
}
use llm_request_balancer.Queue.Memory.{InMemoryFifo, new_in_memory_queue}
use llm_request_balancer.Queue.Redis.{RedisFifo, new_redis_queue}

pub data AnyQueue : Type 0 where
  memory_fifo : InMemoryFifo → AnyQueue
  redis_fifo : RedisFifo → AnyQueue

abbrev pub as_redis_fifo : Result RedisFifo → Result AnyQueue
as_redis_fifo (ok q) = ok (redis_fifo q)
as_redis_fifo (err e) = err e

unfoldable pub new_queue : QueueConfig → Bool → Result AnyQueue
new_queue c has_client = elim c.type [
  | in_memory ↦ ok (memory_fifo (new_in_memory_queue c))
  | redis ↦ as_redis_fifo (new_redis_queue c has_client)
  | other_type ↦ err unsupported_type
]
