-- ===== src/ThreadPool/Jobs.antt =====
-- What becomes of the jobs that are given to the pool of JobQueue.h.
use jun_core_v.Common.{
  ℕ, zero, suc, ◌+◌, ◌≤◌, ◌<◌, ◌≡◌, ◌⊎◌, inl, inr, refl, sym, ap, ◌∙◌, List, [], ◌∷◌, ◌++◌,
  append-nil, length-eq-zero, true, false, length, dec_lt, arith,
}
use jun_core_v.Common.Weights.{total}
use jun_core_v.ThreadPool.{
  ThreadPool, Job, Agent, Choice, Working, Dequeuing, worker, asking, waiting, asking_again, taking,
  polling, dequeuing, running, processing, dequeue_step, worker_step, Reachable,
}
use jun_core_v.ThreadPool.Weights.{linker, releaser, taker, laborer, number}
use jun_core_v.ThreadPool.Permits.{Reachable-Balanced}

-- In every reachable state the jobs that were put in the queue are those that workers have taken
-- and those that are still queued, in the order in which they were put in, and the number of workers
-- that the pool still has to join is the number of threads in `WorkerThreadFunc`.
pub takes_in_order :
    (p : ThreadPool) (agents : List Agent)
    → Reachable (p, agents)
    → (p.accepted ≡ p.taken ++ p.job_queue) × (p.live_workers ≡ number laborer agents)
takes_in_order p agents r = let b = Reachable-Balanced (p, agents) r in (b.in_order, sym b.workers)

first_node :
    (choice : Choice) (p : ThreadPool) (n : ℕ) (jobs : List Job)
    → p.use_count ≡ n
    → p.job_queue ≡ jobs
    → 0 < n
    → n ≤ length jobs
    → (job : Job) × (rest : List Job) × (p.job_queue ≡ job ∷ rest)
      × ((dequeue_step choice taking p).1 ≡ worker (running job) ∷ [])
unfolding dequeue_step
first_node choice p zero jobs e q some_left l = absurd (omega arith)
first_node choice p (suc n) [] e q some_left l = absurd (omega arith)
first_node choice p (suc n) (job ∷ rest) e q some_left l = (job, rest, q, rw (e, q) refl)

-- As long as the queue is not shut down, a worker that holds a permit finds a job: there are at least
-- as many counted nodes as workers with a permit, and the queue's `Dequeue` gives the worker the
-- first node.
pub permit-finds_job :
    (choice : Choice) (p : ThreadPool) (agents : List Agent)
    → Reachable (p, agents)
    → p.queue_shutdown ≡ false
    → 0 < number taker agents
    → (number taker agents ≤ p.use_count)
      × ((job : Job) × (jobs : List Job) × (p.job_queue ≡ job ∷ jobs)
          × ((dequeue_step choice taking p).1 ≡ worker (running job) ∷ []))
permit-finds_job choice p agents r open_queue held =
    let b = Reachable-Balanced (p, agents) r in
    let enough : number taker agents ≤ p.use_count = omega (arith, b.permits open_queue) in
    (
      enough,
      first_node choice p p.use_count p.job_queue refl refl (omega arith) (omega (arith, b.nodes)),
    )

-- As long as the queue is not shut down, no job is left behind: every job that was put in the queue
-- has been taken, or there is a permit for the waiting workers, a worker that holds one, or a thread
-- inside `Enqueue` that will release one.
pub no_job_left :
    (p : ThreadPool) (agents : List Agent)
    → Reachable (p, agents)
    → p.queue_shutdown ≡ false
    → (p.accepted ≡ p.taken)
      ⊎ (0 < p.semaphore + number taker agents + number linker agents + number releaser agents)
no_job_left p agents r open_queue =
    let b = Reachable-Balanced (p, agents) r in
    elim (dec_lt 0 (length p.job_queue)) [
      | yes some_left ↦ inr (omega (arith, b.nodes, b.permits open_queue))
      | no none_left ↦ inl (
          b.in_order
          ∙ ap (◌++◌ p.taken) (length-eq-zero p.job_queue (omega arith))
          ∙ append-nil p.taken)
    ]

-- How many steps a worker has left once the pool is shut down, a job counting as one.
abbrev steps_left : Working → ℕ
steps_left polling = 1
steps_left processing = 2
steps_left (running job) = 3
steps_left (dequeuing taking) = 4
steps_left (dequeuing asking_again) = 5
steps_left (dequeuing waiting) = 6
steps_left (dequeuing asking) = 7

abbrev pub agent_steps_left : Agent → ℕ
agent_steps_left (worker at) = steps_left at
agent_steps_left _ = 0

module _ (choice : Choice) (p : ThreadPool) (h : p.pool_shutdown ≡ true) where
  abbrev Ends : Working → Type 0
  Ends at =
      (total agent_steps_left (worker_step choice at p).1 < agent_steps_left (worker at))
      × ((worker_step choice at p).0.pool_shutdown ≡ true)

  dequeue-Ends : (at : Dequeuing) → Ends (dequeuing at)
  unfolding worker_step dequeue_step total
  dequeue-Ends taking = ground arith
  dequeue-Ends asking_again = ground arith
  dequeue-Ends waiting = ground arith
  dequeue-Ends asking = ground arith

  worker-Ends : (at : Working) → Ends at
  unfolding worker_step total
  worker-Ends polling = ground arith
  worker-Ends processing = ground arith
  worker-Ends (running job) = ground arith
  worker-Ends (dequeuing at) = dequeue-Ends at

steps_left_le : (at : Working) → steps_left at ≤ 7
steps_left_le polling = omega arith
steps_left_le processing = omega arith
steps_left_le (running job) = omega arith
steps_left_le (dequeuing taking) = omega arith
steps_left_le (dequeuing asking_again) = omega arith
steps_left_le (dequeuing waiting) = omega arith
steps_left_le (dequeuing asking) = omega arith

-- Once the pool is shut down every worker leaves its loop after at most seven steps of its own,
-- whatever other threads do in between: a step leaves the pool shut down, and leaves the worker with
-- fewer steps or takes it out of the loop.
pub worker_step_ends :
    (choice : Choice) (at : Working) (p : ThreadPool)
    → p.pool_shutdown ≡ true
    → (agent_steps_left (worker at) ≤ 7)
      × (total agent_steps_left (worker_step choice at p).1 < agent_steps_left (worker at))
      × ((worker_step choice at p).0.pool_shutdown ≡ true)
worker_step_ends choice at p h =
    let (fewer, still) = worker-Ends choice p h at in (steps_left_le at, fewer, still)
