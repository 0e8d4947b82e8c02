-- ===== src/ThreadPool/Permits.antt =====
-- The permits of the semaphore of JobQueue.h and the jobs of its queue.
use jun_core_v.Common.{
  ℕ, zero, suc, ◌+◌, ◌*◌, replicate, ◌≡◌, ◌⊎◌, inl, refl, sym, ap, ◌∙◌, List, [], ◌∷◌, ◌++◌,
  append_assoc, true, false, length, length-append, arith,
}
use jun_core_v.Common.Weights.{total, totals, around_kinds}
use jun_core_v.ThreadPool.{
  ThreadPool, Job, Agent, Choice, Stopping, Dequeuing, Working, submitting, enqueue, worker,
  shutdown, testing, linking, counting, releasing, asking, waiting, asking_again, taking, polling,
  dequeuing, running, processing, exchanging, storing, closing, waking, close_step, joining,
  agent_step, take_node, submit_step, enqueue_step, dequeue_step, worker_step, shutdown_step,
  thread_pool, act, call_submit, call_enqueue, call_shutdown, Reachable, start, next,
}
use jun_core_v.ThreadPool.Weights.{Kind, linker, releaser, taker, laborer, waker, weight}

-- With `of` the numbers of threads of each kind. Until the queue is shut down each node that is
-- counted has a permit, or a thread that will release one or has taken one.
pub record Balanced (of : Kind → ℕ) (p : ThreadPool) : Type 0 where
  pub nodes : length p.job_queue ≡ p.use_count + of linker
  pub permits : p.queue_shutdown ≡ false → p.semaphore + of releaser + of taker ≡ p.use_count
  pub wakers : (of waker ≡ 0) ⊎ (p.queue_shutdown ≡ true)
  pub workers : of laborer ≡ p.live_workers
  pub in_order : p.accepted ≡ p.taken ++ p.job_queue

module _ (choice : Choice) (p : ThreadPool) (others : Kind → ℕ) where
  abbrev Kept : Agent → Type 0
  Kept agent =
      Balanced (λ k. others k + weight k agent) p
      → Balanced (λ k. others k + totals weight (agent_step choice agent p).1 k)
          (agent_step choice agent p).0

  enqueue-Kept : (job : Job) (at : _) → Kept (enqueue job at)
  unfolding agent_step enqueue_step total
  enqueue-Kept job testing h = ground arith
  enqueue-Kept job linking h =
      ground
        (arith, length-append p.job_queue (job ∷ []), append_assoc p.taken p.job_queue (job ∷ []))
  enqueue-Kept job counting h = ground arith
  enqueue-Kept job releasing h = ground arith

  submit-Kept : (job : Job) → Kept (submitting job)
  unfolding agent_step submit_step total
  submit-Kept job h = ground arith

  shutdown-Kept : (at : Stopping) → Kept (shutdown at)
  unfolding agent_step shutdown_step close_step total
  shutdown-Kept exchanging h = ground arith
  shutdown-Kept (closing storing) h = ground arith
  shutdown-Kept (closing (waking zero)) h = ground arith
  shutdown-Kept (closing (waking (suc n))) h = ground arith
  shutdown-Kept joining h = ground arith

  take_node_in_order :
      (n : ℕ) (jobs : List Job)
      → p.job_queue ≡ jobs
      → p.accepted ≡ p.taken ++ p.job_queue
      → (take_node n jobs p).0.accepted
        ≡ (take_node n jobs p).0.taken ++ (take_node n jobs p).0.job_queue
  take_node_in_order zero jobs e h = h
  take_node_in_order (suc n) [] e h = h
  take_node_in_order (suc n) (job ∷ jobs) e h =
      h ∙ ap (◌++◌ p.taken) e ∙ sym (append_assoc p.taken (job ∷ []) jobs)

  dequeue-Kept : (at : Dequeuing) → Kept (worker (dequeuing at))
  unfolding agent_step worker_step dequeue_step total
  dequeue-Kept asking h = ground arith
  dequeue-Kept waiting h = ground arith
  dequeue-Kept asking_again h = ground arith
  dequeue-Kept taking h = ground (arith, take_node_in_order p.use_count p.job_queue refl h.in_order)

  worker-Kept : (at : Working) → Kept (worker at)
  unfolding agent_step worker_step total
  worker-Kept polling h = ground arith
  worker-Kept (dequeuing at) h = dequeue-Kept at h
  worker-Kept (running job) h = ground arith
  worker-Kept processing h = ground arith

agent-Kept :
    (choice : Choice) (p : ThreadPool) (others : Kind → ℕ) (agent : Agent)
    → Kept choice p others agent
agent-Kept choice p others (submitting job) = submit-Kept choice p others job
agent-Kept choice p others (enqueue job at) = enqueue-Kept choice p others job at
agent-Kept choice p others (worker at) = worker-Kept choice p others at
agent-Kept choice p others (shutdown at) = shutdown-Kept choice p others at

total-replicate : (w : Agent → ℕ) (a : Agent) (n : ℕ) → total w (replicate n a) ≡ n * w a
unfolding total
total-replicate w a zero = omega arith
total-replicate w a (suc n) = grind (arith, total-replicate w a n)

thread_pool-Balanced :
    (count : ℕ) → Balanced (totals weight (thread_pool count).1) (thread_pool count).0
unfolding thread_pool
thread_pool-Balanced count = record {
  nodes = omega (arith, total-replicate (weight linker) (worker polling) count);
  permits = λ _. omega (
    arith,
    total-replicate (weight releaser) (worker polling) count,
    total-replicate (weight taker) (worker polling) count,
  );
  wakers = inl (omega (arith, total-replicate (weight waker) (worker polling) count));
  workers = omega (arith, total-replicate (weight laborer) (worker polling) count);
  in_order = refl;
}

pub Reachable-Balanced :
    (s : ThreadPool × List Agent) → Reachable s → Balanced (totals weight s.1) s.0
unfolding total
Reachable-Balanced _ (start count) = thread_pool-Balanced count
Reachable-Balanced _ (next _ _ r (act p before agent after choice)) =
    around_kinds (agent_step choice) Balanced weight (λ a q others. agent-Kept choice q others a) p
      before agent after (Reachable-Balanced (p, before ++ (agent ∷ after)) r)
Reachable-Balanced _ (next _ _ r (call_submit p agents job)) =
    ground (arith, Reachable-Balanced (p, agents) r)
Reachable-Balanced _ (next _ _ r (call_enqueue p agents job)) =
    ground (arith, Reachable-Balanced (p, agents) r)
Reachable-Balanced _ (next _ _ r (call_shutdown p agents)) =
    ground (arith, Reachable-Balanced (p, agents) r)
