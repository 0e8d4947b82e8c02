-- ===== src/JobObject/Order.antt =====
-- The order in which JobObject.cpp runs the jobs of an object.
use jun_core_v.Common.{
  ℕ, ◌≡◌, refl, sym, ap, ap₂, subst, ◌∙◌, List, [], ◌∷◌, ◌++◌, append_assoc, append-nil, none, some,
  false, arith,
}
use mathlib.Core.Option.{some-injective}
use jun_core_v.JobObject.{
  JobObject, Agent, System, Step, act, call_post_job, call_mark_for_delete, call_set_job_thread,
  take_scheduled, Reachable, start, next, job_object, agent_step, dequeue_job, claim_job,
  mark_for_delete, set_job_thread, linking, claiming, running,
}
use jun_core_v.Common.Weights.{total_at, gather, gather_around, gather_at, gather_nothing}
use jun_core_v.JobObject.Weights.{owner}
use jun_core_v.JobObject.Wakeup.{one_owner, quiescent_empty}

-- The jobs that threads have taken off the queue and are about to run.
abbrev pub running_job : Agent → List ℕ
running_job (running me old job) = job ∷ []
running_job _ = []

abbrev pub running_jobs : List Agent → List ℕ
running_jobs = gather running_job

no_owner_runs_nothing : (agent : Agent) → owner agent ≡ 0 → running_job agent ≡ []
no_owner_runs_nothing (running me old job) h = absurd (omega arith)
no_owner_runs_nothing agent h = refl

-- The jobs accepted are those run, those about to be run and those queued, in that order.
abbrev Ordered : List ℕ → JobObject → Type 0
Ordered taken o = o.accepted ≡ o.executed ++ (taken ++ o.job_queue)

claim_job-Ordered :
    (me old : ℕ) (o : JobObject)
    → Ordered [] o
    → Ordered (running_job (claim_job me old o).1) (claim_job me old o).0
unfolding claim_job
claim_job-Ordered me old o h = ground (arith, h)

-- Seen from one thread, when an owner finds no other thread about to run a job.
agent_step-Ordered :
    (agent : Agent) (o : JobObject) (left right : List ℕ)
    → (owner agent ≡ 1 → (left ≡ []) × (right ≡ []))
    → Ordered (left ++ (running_job agent ++ right)) o
    → Ordered (left ++ (running_jobs (agent_step agent o).1 ++ right)) (agent_step agent o).0
unfolding agent_step dequeue_job claim_job gather
agent_step-Ordered (linking job) o left right alone h =
    ap (λ jobs. jobs ++ (job ∷ [])) h
    ∙ append_assoc o.executed ((left ++ right) ++ o.job_queue) (job ∷ [])
    ∙ ap (◌++◌ o.executed) (append_assoc (left ++ right) o.job_queue (job ∷ []))
agent_step-Ordered (claiming me old) o left right alone h =
    let (l, r) = alone refl in
    let only : left ++ (running_jobs ((claim_job me old o).1 ∷ []) ++ right)
        ≡ running_job (claim_job me old o).1 =
      ap₂ (λ xs ys. xs ++ (running_jobs ((claim_job me old o).1 ∷ []) ++ ys)) l r
      ∙ append-nil _
      ∙ append-nil _ in
    subst (λ jobs. Ordered jobs (claim_job me old o).0) (sym only)
      (claim_job-Ordered me old o (subst (λ jobs. Ordered jobs o) (ap₂ ◌++◌ l r) h))
agent_step-Ordered (running me old job) o left right alone h =
    let (l, r) = alone refl in
    subst (λ jobs. Ordered jobs (agent_step (running me old job) o).0) (sym (ap₂ ◌++◌ l r))
      (subst (λ jobs. Ordered jobs o) (ap₂ (λ xs ys. xs ++ (job ∷ ys)) l r) h
        ∙ sym (append_assoc o.executed (job ∷ []) o.job_queue))
agent_step-Ordered agent o left right alone h = ground (arith, h)

-- An owner is the only one.
others_run_nothing :
    (o : JobObject) (before : List Agent) (agent : Agent) (after : List Agent)
    → Reachable (o, before ++ (agent ∷ after))
    → owner agent ≡ 1
    → (running_jobs before ≡ []) × (running_jobs after ≡ [])
others_run_nothing o before agent after r e =
    let sum = total_at owner before agent after in
    (
      gather_nothing running_job owner no_owner_runs_nothing before
          (omega (arith, one_owner r, sum, e)),
      gather_nothing running_job owner no_owner_runs_nothing after
          (omega (arith, one_owner r, sum, e)),
    )

Step-Ordered :
    {s s' : System}
    → Step s s'
    → Reachable s
    → Ordered (running_jobs s.1) s.0
    → Ordered (running_jobs s'.1) s'.0
unfolding mark_for_delete set_job_thread gather
Step-Ordered (act o before agent after) r h =
    subst (λ jobs. Ordered jobs (agent_step agent o).0)
      (sym (gather_around running_job before (agent_step agent o).1 after))
      (agent_step-Ordered agent o (running_jobs before) (running_jobs after)
        (others_run_nothing o before agent after r)
        (subst (λ jobs. Ordered jobs o) (gather_at running_job before agent after) h))
Step-Ordered (call_post_job o agents job) r h = h
Step-Ordered (call_mark_for_delete o agents) r h = h
Step-Ordered (call_set_job_thread o o' agents none e) r h = absurd (ground (arith, e))
Step-Ordered (call_set_job_thread o o' agents (some thread) e) r h =
    subst (λ q. Ordered (running_jobs agents) q) (some-injective _ _ e) h
Step-Ordered (take_scheduled o agents before thread after e free) r h = h

-- In every reachable state the accepted jobs are those that were run, then the one about to be run
-- if there is one, then those in the queue: jobs are run once each and in the order in which they
-- were put in the queue, and none is lost.
pub runs_in_order :
    (s : System) → Reachable s → s.0.accepted ≡ s.0.executed ++ (running_jobs s.1 ++ s.0.job_queue)
unfolding job_object gather
runs_in_order s (start none o e) = absurd (ground (arith, e))
runs_in_order s (start (some thread) o e) =
    subst (λ q. Ordered (running_jobs []) q) (some-injective _ _ e) refl
runs_in_order _ (next s' s r st) = Step-Ordered st r (runs_in_order s' r)

-- For an object that is not marked for deletion: when all calls have returned and no thread's queue
-- holds the object, every job that was accepted has been run, in the order in which they were put in
-- the queue.
pub quiescent_all_run :
    (o : JobObject)
    → Reachable (o, [])
    → o.marked_for_delete ≡ false
    → o.scheduled ≡ []
    → o.executed ≡ o.accepted
unfolding gather
quiescent_all_run o r unmarked nowhere = sym (
    runs_in_order (o, []) r
    ∙ ap (◌++◌ o.executed) (quiescent_empty o r unmarked nowhere).1
    ∙ append-nil o.executed)
