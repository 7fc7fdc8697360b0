-- ===== src/Queue/Worker/InMemory.antt =====
-- The interface that the worker holds, filled by the in-memory queue.
use llm_request_balancer.Common.{List, arith}
use llm_request_balancer.Queue.Item.{QueueItem}
use llm_request_balancer.Queue.Memory.{InMemoryFifo, enqueue}
use llm_request_balancer.Queue.Worker.{QueueMethods}
use llm_request_balancer.Queue.Worker.Answers.{IsQueue}

abbrev pub in_memory : QueueMethods InMemoryFifo
in_memory = record { enqueue = enqueue }

abbrev pub held_items : InMemoryFifo → List QueueItem
held_items q = q.items

-- `InMemoryFIFO` is a queue as the worker expects it: an accepted item goes to the end with its
-- `EnqueueTime` set, and a refused one leaves the queue as it was.
pub in_memory-IsQueue : IsQueue in_memory held_items
unfolding enqueue
in_memory-IsQueue = record {
  accepts = λ now q item h. ground arith;
  refuses = λ now q item e h. ground arith;
}
