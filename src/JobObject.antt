-- ===== src/JobObject.antt =====
-- JunCore/logic/JobObject.h and JobObject.cpp with `ProcessJobObjects` of JobThread.cpp: one object
-- whose jobs any thread posts and one thread at a time runs. Every thread that is inside one of
-- these functions is an `Agent`, whose constructor says what it does next; a step of an agent makes
-- one access to the shared state. The object's `LFQueue` is the list of its nodes and the counter that
-- `Enqueue` raises after it has linked a node and that `Dequeue` lowers before it takes one off; only
-- the lowering and raising of a `Dequeue` that finds nothing are one step together. A job thread is in
-- the loop of `ProcessJobObjects` once at a time. What a job does to its own object (`MarkForDelete`,
-- `SetJobThread`, `PostJob`) can happen at any time, as can the same calls from elsewhere.
pub mod Weights
pub mod Ownership
pub mod Wakeup
pub mod Order
pub mod Deletion
mod Tests
use jun_core_v.Common.{
  ℕ, zero, suc, ◌+◌, ◌≡◌, List, [], ◌∷◌, ◌++◌, Bool, true, false, ◌==◌, if◌then◌else◌, Option, none,
  some,
}
use jun_core_v.Common.Weights.{bit, total}

-- Jobs and threads are numbers. `scheduled` lists the threads whose queues hold the object, one
-- entry for each time; `accepted` and `executed` record the jobs that were put in the queue and
-- those that were run; `destroyed` counts the deletions.
pub record JobObject : Type 0 where
  pub job_queue : List ℕ
  pub use_count : ℕ
  pub processing : Bool
  pub marked_for_delete : Bool
  pub job_thread : ℕ
  pub scheduled : List ℕ
  pub accepted : List ℕ
  pub executed : List ℕ
  pub destroyed : ℕ

-- The constructor with a thread, which throws on a null one.
unfoldable pub job_object : Option ℕ → Option JobObject
job_object none = none
job_object (some thread) = some (record {
  job_queue = [];
  use_count = 0;
  processing = false;
  marked_for_delete = false;
  job_thread = thread;
  scheduled = [];
  accepted = [];
  executed = [];
  destroyed = 0;
})

pub data Agent : Type 0 where
  -- `PostJob`: the mark, the two parts of `Enqueue`, the exchange, the scheduling
  checking linking : ℕ → Agent
  counting exchanging posting : Agent
  -- `Flush` up to the end of its loop; the first number is the thread that runs it, the second is
  -- `pOldThread`
  flushing entering : ℕ → Agent
  draining claiming ran comparing : ℕ → ℕ → Agent
  running : ℕ → ℕ → ℕ → Agent
  transferring drained : ℕ → Agent
  -- `Flush` after `m_processing.store(false)`
  rechecking retrying reposting : ℕ → Agent
  -- `ProcessJobObjects` after `Flush`
  flushed deleting : ℕ → Agent

-- 1 for a thread that is inside the body of the loop of `ProcessJobObjects`, as the job thread
-- `thread`.
abbrev pub inside : ℕ → Agent → ℕ
inside thread (checking job) = 0
inside thread (linking job) = 0
inside thread counting = 0
inside thread exchanging = 0
inside thread posting = 0
inside thread (flushing me) = bit (me == thread)
inside thread (entering me) = bit (me == thread)
inside thread (draining me old) = bit (me == thread)
inside thread (claiming me old) = bit (me == thread)
inside thread (running me old job) = bit (me == thread)
inside thread (ran me old) = bit (me == thread)
inside thread (comparing me old) = bit (me == thread)
inside thread (transferring me) = bit (me == thread)
inside thread (drained me) = bit (me == thread)
inside thread (rechecking me) = bit (me == thread)
inside thread (retrying me) = bit (me == thread)
inside thread (reposting me) = bit (me == thread)
inside thread (flushed me) = bit (me == thread)
inside thread (deleting me) = bit (me == thread)

unfoldable pub mark_for_delete : JobObject → JobObject
mark_for_delete o = record o { marked_for_delete = true }

-- `none` stands for the exception on a null thread.
unfoldable pub set_job_thread : Option ℕ → JobObject → Option JobObject
set_job_thread none o = none
set_job_thread (some thread) o = some (record o { job_thread = thread })

-- `m_pJobThread->GetJobQueue()->Enqueue(this)`
abbrev pub schedule : JobObject → JobObject
schedule o = record o { scheduled = o.scheduled ++ o.job_thread ∷ [] }

-- `m_jobQueue.Dequeue(&job)` in the loop of `Flush`: `InterlockedDecrement`, whose result is the answer.
-- A counter that goes below 0 is raised again at once, which is one step here.
unfoldable pub dequeue_job : ℕ → ℕ → JobObject → JobObject × Agent
dequeue_job me old o = elim o.use_count [
  | zero ↦ (o, drained me)
  | suc n ↦ (record o { use_count = n }, claiming me old)
]

-- Then it takes a node off. With none there it spins.
unfoldable pub claim_job : ℕ → ℕ → JobObject → JobObject × Agent
claim_job me old o = elim o.job_queue [
  | [] ↦ (o, claiming me old)
  | job ∷ jobs ↦ (record o { job_queue = jobs }, running me old job)
]

-- The next access of a thread: the new state, and where that thread stands then, if it is not done.
unfoldable pub agent_step : Agent → JobObject → JobObject × List Agent
agent_step (checking job) o = if o.marked_for_delete then (o, []) else (o, linking job ∷ [])
agent_step (linking job) o = (
  record o { job_queue = o.job_queue ++ job ∷ []; accepted = o.accepted ++ job ∷ [] },
  counting ∷ [],
)
agent_step counting o = (record o { use_count = suc o.use_count }, exchanging ∷ [])
agent_step exchanging o =
    if o.processing then (o, []) else (record o { processing = true }, posting ∷ [])
agent_step posting o = (schedule o, [])
agent_step (flushing me) o =
    if o.marked_for_delete then (o, flushed me ∷ []) else (o, entering me ∷ [])
agent_step (entering me) o = (o, draining me o.job_thread ∷ [])
agent_step (draining me old) o = let (o', agent) = dequeue_job me old o in (o', agent ∷ [])
agent_step (claiming me old) o = let (o', agent) = claim_job me old o in (o', agent ∷ [])
agent_step (running me old job) o =
    (record o { executed = o.executed ++ job ∷ [] }, ran me old ∷ [])
agent_step (ran me old) o =
    if o.marked_for_delete then (o, flushed me ∷ []) else (o, comparing me old ∷ [])
agent_step (comparing me old) o =
    if o.job_thread == old then (o, draining me old ∷ []) else (o, transferring me ∷ [])
agent_step (transferring me) o = (schedule o, flushed me ∷ [])
agent_step (drained me) o = (record o { processing = false }, rechecking me ∷ [])
agent_step (rechecking me) o = elim o.use_count [
  | zero ↦ (o, flushed me ∷ [])
  | suc n ↦ (o, retrying me ∷ [])
]
agent_step (retrying me) o =
    if o.processing
    then (o, flushed me ∷ [])
    else (record o { processing = true }, reposting me ∷ [])
agent_step (reposting me) o = (schedule o, flushed me ∷ [])
agent_step (flushed me) o = if o.marked_for_delete then (o, deleting me ∷ []) else (o, [])
agent_step (deleting me) o = (record o { destroyed = suc o.destroyed }, [])

-- The object and the threads inside its functions.
abbrev pub System : Type 0
System = JobObject × List Agent

pub data Step : System → System → Type 0 where
  act :
      (o : JobObject) (before : List Agent) (agent : Agent) (after : List Agent)
      → Step
          (o, before ++ agent ∷ after)
          ((agent_step agent o).0, before ++ (agent_step agent o).1 ++ after)
  call_post_job :
      (o : JobObject) (agents : List Agent) (job : ℕ) → Step (o, agents) (o, checking job ∷ agents)
  call_mark_for_delete :
      (o : JobObject) (agents : List Agent) → Step (o, agents) (mark_for_delete o, agents)
  call_set_job_thread :
      (o o' : JobObject) (agents : List Agent) (thread : Option ℕ)
      → set_job_thread thread o ≡ some o'
      → Step (o, agents) (o', agents)
  -- `ProcessJobObjects` takes the object off the queue of a thread, which is not yet inside the body
  -- of its loop.
  take_scheduled :
      (o : JobObject) (agents : List Agent) (before : List ℕ) (thread : ℕ) (after : List ℕ)
      → o.scheduled ≡ before ++ thread ∷ after
      → total (inside thread) agents ≡ 0
      → Step (o, agents) (record o { scheduled = before ++ after }, flushing thread ∷ agents)

pub data Reachable : System → Type 0 where
  start : (thread : Option ℕ) (o : JobObject) → job_object thread ≡ some o → Reachable (o, [])
  next : (s s' : System) → Reachable s → Step s s' → Reachable s'
