-- ===== src/JobObject/Ownership.antt =====
-- Who may run the object of JobObject.cpp, and that a posted job never waits for nobody.
use jun_core_v.Common.{ℕ, ◌+◌, ◌≤◌, ◌<◌, ◌≡◌, [], ◌∷◌, false, length, length-append, arith}
use jun_core_v.JobObject.{
  JobObject, Agent, System, agent_step, dequeue_job, claim_job, linking, posting, transferring,
  reposting,
}
use jun_core_v.Common.Weights.{bit, total}
use jun_core_v.JobObject.Weights.{owner, trier, counter}

-- With `owners` owning threads: there is at most one owner or queue entry, and exactly one while
-- `m_processing` is set and the object is not marked.
abbrev pub Owned : ℕ → JobObject → Type 0
Owned owners o =
    (owners + length o.scheduled ≤ bit o.processing)
    × (o.marked_for_delete ≡ false → bit o.processing ≤ owners + length o.scheduled)

-- With `triers` threads that are still to try the exchange.
abbrev pub Awake : ℕ → JobObject → Type 0
Awake triers o = 0 < o.use_count → 0 < bit o.processing + triers

-- With `counters` threads between linking a job and counting it.
abbrev pub Counted : ℕ → JobObject → Type 0
Counted counters o = length o.job_queue ≡ o.use_count + counters

pub record Invariant (s : System) : Type 0 where
  pub owned : Owned (total owner s.1) s.0
  pub awake : Awake (total trier s.1) s.0
  pub counted : Counted (total counter s.1) s.0

pub agent_step-Owned :
    (agent : Agent) (o : JobObject) (others : ℕ)
    → Owned (others + owner agent) o
    → Owned (others + total owner (agent_step agent o).1) (agent_step agent o).0
unfolding agent_step dequeue_job claim_job total
agent_step-Owned posting o others h = ground (arith, length-append o.scheduled (o.job_thread ∷ []))
agent_step-Owned (transferring me) o others h =
    ground (arith, length-append o.scheduled (o.job_thread ∷ []))
agent_step-Owned (reposting me) o others h =
    ground (arith, length-append o.scheduled (o.job_thread ∷ []))
agent_step-Owned agent o others h = ground arith

pub agent_step-Awake :
    (agent : Agent) (o : JobObject) (others : ℕ)
    → Awake (others + trier agent) o
    → Awake (others + total trier (agent_step agent o).1) (agent_step agent o).0
unfolding agent_step dequeue_job claim_job total
agent_step-Awake agent o others h = ground arith

pub agent_step-Counted :
    (agent : Agent) (o : JobObject) (others : ℕ)
    → Counted (others + counter agent) o
    → Counted (others + total counter (agent_step agent o).1) (agent_step agent o).0
unfolding agent_step dequeue_job claim_job total
agent_step-Counted (linking job) o others h = ground (arith, length-append o.job_queue (job ∷ []))
agent_step-Counted agent o others h = ground arith
