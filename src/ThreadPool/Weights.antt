-- ===== src/ThreadPool/Weights.antt =====
-- What the threads inside JobQueue.h count for.
use jun_core_v.Common.{ℕ, List}
use jun_core_v.Common.Weights.{totals}
use jun_core_v.ThreadPool.{
  Agent, enqueue, worker, shutdown, counting, releasing, dequeuing, asking_again, taking, closing,
  waking,
}

pub data Kind : Type 0 where
  linker releaser taker laborer waker : Kind

-- Threads that have linked a node and not counted it.
abbrev link_weight : Agent → ℕ
link_weight (enqueue job counting) = 1
link_weight _ = 0

-- Threads that have counted a node and not released the semaphore.
abbrev release_weight : Agent → ℕ
release_weight (enqueue job releasing) = 1
release_weight _ = 0

-- Workers that hold a permit.
abbrev take_weight : Agent → ℕ
take_weight (worker (dequeuing asking_again)) = 1
take_weight (worker (dequeuing taking)) = 1
take_weight _ = 0

-- Threads that release the semaphore to wake the workers.
abbrev wake_weight : Agent → ℕ
wake_weight (shutdown (closing (waking n))) = 1
wake_weight _ = 0

abbrev labor_weight : Agent → ℕ
labor_weight (worker at) = 1
labor_weight _ = 0

abbrev pub weight : Kind → Agent → ℕ
weight linker = link_weight
weight releaser = release_weight
weight taker = take_weight
weight laborer = labor_weight
weight waker = wake_weight

abbrev pub number : Kind → List Agent → ℕ
number kind agents = totals weight agents kind
