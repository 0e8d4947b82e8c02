-- ===== src/ThreadPool.antt =====
-- JunCommon/queue/JobQueue.h: a queue of jobs with a semaphore, and the pool of threads that run them.
-- Every thread that is inside one of these functions is an `Agent`, whose constructor says what it
-- does next; a step of an agent makes one access to the shared state. The `LFQueue` is the list of
-- its nodes and the counter that `Enqueue` raises after it has linked a node; its `Dequeue`, which
-- lowers the counter and takes a node off, is one step. A wait for the
-- semaphore ends by its time limit or with a permit, and a job returns or throws, as the step chooses.
pub mod Weights
pub mod Permits
pub mod Jobs
mod Tests
use jun_core_v.Common.{
  ℕ, zero, suc, ◌+◌, ◌-◌, ◌%◌, ◌^◌, ◌≡◌, List, [], ◌∷◌, ◌++◌, Bool, true, false, not, replicate,
  ◌==◌, if◌then◌else◌, Option, none, some,
}

-- A job, whose function may be missing.
pub record Job : Type 0 where
  pub job_function : Option ℕ
  pub priority : ℕ

-- `live_workers` counts the threads that are still in `WorkerThreadFunc`. Beyond the members,
-- `accepted` and `taken` record the jobs that were linked and those that were taken off, and `called`
-- the functions that were called.
pub record ThreadPool : Type 0 where
  pub job_queue : List Job
  pub use_count : ℕ
  pub semaphore : ℕ
  pub queue_shutdown : Bool
  pub pool_shutdown : Bool
  pub live_workers : ℕ
  pub processed_job_count : ℕ
  pub accepted : List Job
  pub taken : List Job
  pub called : List ℕ

-- `JobQueue::Enqueue`: the test, the two parts of the queue's own `Enqueue`, the semaphore.
pub data Enqueuing : Type 0 where
  testing linking counting releasing : Enqueuing

-- `JobQueue::Dequeue`: the test, the wait, the test again, the queue's own `Dequeue`.
pub data Dequeuing : Type 0 where
  asking waiting asking_again taking : Dequeuing

pub data Working : Type 0 where
  polling : Working
  dequeuing : Dequeuing → Working
  running : Job → Working
  processing : Working

-- `JobQueue::Shutdown`: the store, and so many releases that are left.
pub data Closing : Type 0 where
  storing : Closing
  waking : ℕ → Closing

-- `ThreadPool::Shutdown`: the exchange, the queue, the joins.
pub data Stopping : Type 0 where
  exchanging : Stopping
  closing : Closing → Stopping
  joining : Stopping

pub data Agent : Type 0 where
  submitting : Job → Agent
  enqueue : Job → Enqueuing → Agent
  worker : Working → Agent
  shutdown : Stopping → Agent

abbrev pub Next : Type 0
Next = ThreadPool × List Agent

-- What the environment decides: whether a wait ends with a permit that is there, and whether a job
-- returns.
pub record Choice : Type 0 where
  pub in_time : Bool
  pub returns : Bool

-- `ThreadPool::Submit`
unfoldable pub submit_step : Job → ThreadPool → Next
submit_step job p = (p, if p.pool_shutdown then [] else enqueue job testing ∷ [])

unfoldable pub enqueue_step : Job → Enqueuing → ThreadPool → Next
enqueue_step job testing p = (p, if p.queue_shutdown then [] else enqueue job linking ∷ [])
enqueue_step job linking p = (
  record p { job_queue = p.job_queue ++ (job ∷ []); accepted = p.accepted ++ (job ∷ []) },
  enqueue job counting ∷ [],
)
enqueue_step job counting p = (record p { use_count = suc p.use_count }, enqueue job releasing ∷ [])
enqueue_step job releasing p = (record p { semaphore = suc p.semaphore }, [])

-- `LFQueue::Dequeue`; with no node counted it fails.
abbrev pub take_node : ℕ → List Job → ThreadPool → Next
take_node zero jobs p = (p, worker polling ∷ [])
take_node (suc n) [] p = (p, worker polling ∷ [])
take_node (suc n) (job ∷ jobs) p = (
  record p { use_count = n; job_queue = jobs; taken = p.taken ++ (job ∷ []) },
  worker (running job) ∷ [],
)

abbrev pub take_permit : ℕ → ThreadPool → Next
take_permit zero p = (p, worker polling ∷ [])
take_permit (suc n) p = (record p { semaphore = n }, worker (dequeuing asking_again) ∷ [])

-- `JobQueue::Dequeue`, as a worker calls it.
unfoldable pub dequeue_step : Choice → Dequeuing → ThreadPool → Next
dequeue_step choice asking p =
    (p, worker (if p.queue_shutdown then polling else dequeuing waiting) ∷ [])
dequeue_step choice waiting p =
    if choice.in_time then take_permit p.semaphore p else (p, worker polling ∷ [])
dequeue_step choice asking_again p =
    (p, worker (if p.queue_shutdown then polling else dequeuing taking) ∷ [])
dequeue_step choice taking p = take_node p.use_count p.job_queue p

abbrev call_function : Bool → Option ℕ → ThreadPool → Next
call_function returns none p = (p, worker polling ∷ [])
call_function returns (some f) p = (
  record p { called = p.called ++ (f ∷ []) },
  worker (if returns then processing else polling) ∷ [],
)

-- `ThreadPool::WorkerThreadFunc`
unfoldable pub worker_step : Choice → Working → ThreadPool → Next
worker_step choice polling p =
    if p.pool_shutdown
    then (record p { live_workers = p.live_workers - 1 }, [])
    else (p, worker (dequeuing asking) ∷ [])
worker_step choice (dequeuing at) p = dequeue_step choice at p
worker_step choice (running job) p = call_function choice.returns job.job_function p
worker_step choice processing p =
    (record p { processed_job_count = (p.processed_job_count + 1) % 2 ^ 32 }, worker polling ∷ [])

-- `JobQueue::Shutdown`, as the pool calls it.
unfoldable pub close_step : Closing → ThreadPool → Next
close_step storing p = (record p { queue_shutdown = true }, shutdown (closing (waking 100)) ∷ [])
close_step (waking zero) p = (p, shutdown joining ∷ [])
close_step (waking (suc n)) p =
    (record p { semaphore = suc p.semaphore }, shutdown (closing (waking n)) ∷ [])

unfoldable pub shutdown_step : Stopping → ThreadPool → Next
shutdown_step exchanging p = (
  record p { pool_shutdown = true },
  if p.pool_shutdown then [] else shutdown (closing storing) ∷ [],
)
shutdown_step (closing at) p = close_step at p
shutdown_step joining p = (p, if p.live_workers == 0 then [] else shutdown joining ∷ [])

unfoldable pub agent_step : Choice → Agent → ThreadPool → Next
agent_step choice (submitting job) p = submit_step job p
agent_step choice (enqueue job at) p = enqueue_step job at p
agent_step choice (worker at) p = worker_step choice at p
agent_step choice (shutdown at) p = shutdown_step at p

-- The constructor starts so many workers.
unfoldable pub thread_pool : ℕ → Next
thread_pool count = (
  record {
    job_queue = [];
    use_count = 0;
    semaphore = 0;
    queue_shutdown = false;
    pool_shutdown = false;
    live_workers = count;
    processed_job_count = 0;
    accepted = [];
    taken = [];
    called = [];
  },
  replicate count (worker polling),
)

pub data Step : Next → Next → Type 0 where
  act :
      (p : ThreadPool) (before : List Agent) (agent : Agent) (after : List Agent) (choice : Choice)
      → Step
          (p, before ++ (agent ∷ after))
          ((agent_step choice agent p).0, (before ++ (agent_step choice agent p).1) ++ after)
  call_submit :
      (p : ThreadPool) (agents : List Agent) (job : Job)
      → Step (p, agents) (p, submitting job ∷ agents)
  call_enqueue :
      (p : ThreadPool) (agents : List Agent) (job : Job)
      → Step (p, agents) (p, enqueue job testing ∷ agents)
  call_shutdown :
      (p : ThreadPool) (agents : List Agent) → Step (p, agents) (p, shutdown exchanging ∷ agents)

pub data Reachable : Next → Type 0 where
  start : (count : ℕ) → Reachable (thread_pool count)
  next : (s s' : Next) → Reachable s → Step s s' → Reachable s'
