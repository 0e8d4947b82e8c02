-- ===== src/ThreadPool/Tests.antt =====
-- JobQueue.h at a concrete pool.
use jun_core_v.Common.{◌+◌, ◌<◌, ◌≡◌, ◌⊎◌, refl, List, [], ◌∷◌, ◌++◌, some, true, false}
use jun_core_v.ThreadPool.{
  ThreadPool, Job, Agent, Choice, worker, enqueue, testing, linking, counting, releasing, polling,
  dequeuing, asking, waiting, asking_again, taking, thread_pool, agent_step, enqueue_step,
  dequeue_step, worker_step, Reachable, start, next, act, call_enqueue,
}
use jun_core_v.ThreadPool.Weights.{number, taker, linker, releaser}
use jun_core_v.ThreadPool.Jobs.{no_job_left}

abbrev job : Job
job = record { job_function = some 7; priority = 0 }

abbrev in_time : Choice
in_time = record { in_time = true; returns = true }

-- One worker has a permit for the job that was put in the queue.
abbrev with_job : ThreadPool
with_job = record {
  job_queue = job ∷ [];
  use_count = 1;
  semaphore = 0;
  queue_shutdown = false;
  pool_shutdown = false;
  live_workers = 1;
  processed_job_count = 0;
  accepted = job ∷ [];
  taken = [];
  called = [];
}

abbrev one_worker : List Agent
one_worker = worker (dequeuing taking) ∷ []

go :
    (agent : Agent) (p : ThreadPool) (after : List Agent)
    → Reachable (p, agent ∷ after)
    → Reachable ((agent_step in_time agent p).0, (agent_step in_time agent p).1 ++ after)
go agent p after r = next _ _ r (act p [] agent after in_time)

with_job_reached : Reachable (with_job, one_worker)
unfolding agent_step enqueue_step worker_step dequeue_step thread_pool
with_job_reached = go (worker (dequeuing asking_again)) _ _ (
    go (worker (dequeuing waiting)) _ _ (
      go (worker (dequeuing asking)) _ _ (
        go (worker polling) _ _ (
          go (enqueue job releasing) _ _ (
            go (enqueue job counting) _ _ (
              go (enqueue job linking) _ _
                (go (enqueue job testing) _ _ (next _ _ (start 1) (call_enqueue _ _ job)))))))))

no_job_left_example :
    (with_job.accepted ≡ with_job.taken)
    ⊎ (0
        < with_job.semaphore
          + number taker one_worker
          + number linker one_worker
          + number releaser one_worker)
no_job_left_example = no_job_left with_job one_worker with_job_reached refl
