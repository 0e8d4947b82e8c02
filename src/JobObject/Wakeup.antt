-- ===== src/JobObject/Wakeup.antt =====
-- All threads of JobObject.cpp together: one of them at most runs the object, and a posted job
-- never waits for nobody.
use jun_core_v.Common.{
  ◌+◌, ◌≤◌, ◌<◌, ◌≡◌, ap, subst, [], ◌∷◌, false, none, some, length, length-append, length-eq-zero,
  arith,
}
use mathlib.Core.Option.{some-injective}
use jun_core_v.JobObject.{
  JobObject, System, Step, act, call_post_job, call_mark_for_delete, call_set_job_thread,
  take_scheduled, Reachable, start, next, job_object, agent_step, mark_for_delete, set_job_thread,
  checking, flushing,
}
use jun_core_v.Common.Weights.{total, total_cons, around}
use jun_core_v.JobObject.Weights.{owner, trier, counter}
use jun_core_v.JobObject.Ownership.{
  Owned, Awake, Counted, Invariant, agent_step-Owned, agent_step-Awake, agent_step-Counted,
}

-- Every step keeps the invariant.
pub Step-Invariant : {s s' : System} → Step s s' → Invariant s → Invariant s'
unfolding mark_for_delete set_job_thread
Step-Invariant (act o before agent after) i = record {
  owned = around agent_step Owned owner agent_step-Owned o before agent after i.owned;
  awake = around agent_step Awake trier agent_step-Awake o before agent after i.awake;
  counted = around agent_step Counted counter agent_step-Counted o before agent after i.counted;
}
Step-Invariant (call_post_job o agents job) i = record {
  owned = rw (total_cons owner (checking job) agents) (ground (arith, i.owned));
  awake = rw (total_cons trier (checking job) agents) (ground (arith, i.awake));
  counted = rw (total_cons counter (checking job) agents) (ground (arith, i.counted));
}
Step-Invariant (call_mark_for_delete o agents) i = record {
  owned = ground (arith, i.owned);
  awake = i.awake;
  counted = i.counted;
}
Step-Invariant (call_set_job_thread o o' agents none e) i = absurd (ground (arith, e))
Step-Invariant (call_set_job_thread o o' agents (some thread) e) i =
    subst (λ q. Invariant (q, agents)) (some-injective _ _ e)
      (record { owned = i.owned; awake = i.awake; counted = i.counted })
Step-Invariant (take_scheduled o agents before thread after e free) i = record {
  owned = ground (
    arith,
    i.owned,
    ap length e,
    length-append before (thread ∷ after),
    length-append before after,
    total_cons owner (flushing thread) agents,
  );
  awake = ground (arith, i.awake, total_cons trier (flushing thread) agents);
  counted = ground (arith, i.counted, total_cons counter (flushing thread) agents);
}

pub Reachable-Invariant : {s : System} → Reachable s → Invariant s
unfolding job_object total
Reachable-Invariant (start none o e) = absurd (ground (arith, e))
Reachable-Invariant (start (some thread) o e) =
    subst (λ q. Invariant (q, [])) (some-injective _ _ e)
      (record { owned = ground arith; awake = ground arith; counted = ground arith })
Reachable-Invariant (next s s' r st) = Step-Invariant st (Reachable-Invariant r)

-- In every reachable state there is at most one of these: a thread that is running or scheduling the
-- object, or an entry of it in the queue of a thread.
pub one_owner : {s : System} → Reachable s → total owner s.1 + length s.0.scheduled ≤ 1
one_owner r = ground (arith, (Reachable-Invariant r).owned)

-- No wakeup is lost: in every reachable state of an unmarked object that has a counted job, the
-- object is in the queue of a thread, or some thread inside its functions owns it or is still to
-- try for it.
pub no_lost_wakeup :
    (s : System)
    → Reachable s
    → s.0.marked_for_delete ≡ false
    → 0 < s.0.use_count
    → 0 < length s.0.scheduled + total owner s.1 + total trier s.1
no_lost_wakeup s r unmarked some_job =
    let i = Reachable-Invariant r in ground (arith, i.owned, i.awake some_job, i.owned.1 unmarked)

-- When all calls have returned and no thread's queue holds the object, an unmarked object is idle
-- and its queue is empty, whatever the threads did in whatever order.
pub quiescent_empty :
    (o : JobObject)
    → Reachable (o, [])
    → o.marked_for_delete ≡ false
    → o.scheduled ≡ []
    → (o.processing ≡ false) × (o.job_queue ≡ [])
unfolding total
quiescent_empty o r unmarked nowhere =
    let i = Reachable-Invariant r in
    let nowhere' = ap length nowhere in
    let idle : o.processing ≡ false = ground (arith, i.owned.1 unmarked, nowhere') in
    (idle, length-eq-zero o.job_queue (ground (arith, i.awake, i.counted, idle)))
