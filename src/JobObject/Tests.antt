-- ===== src/JobObject/Tests.antt =====
-- The job object at concrete runs: one job 7, posted to an object of thread 1.
use jun_core_v.Common.{ℕ, ◌+◌, ◌≤◌, ◌<◌, ◌≡◌, ◌⊎◌, refl, [], ◌∷◌, ◌++◌, some, length, arith}
use jun_core_v.JobObject.{
  JobObject, call_post_job, Reachable, start, next, job_object, agent_step, dequeue_job, claim_job,
  checking, linking, counting, exchanging, draining, running, ran, comparing, drained, rechecking,
  flushed, deleting, inside,
}
use jun_core_v.Common.Weights.{total}
use jun_core_v.JobObject.Weights.{owner, trier}
use jun_core_v.JobObject.Wakeup.{no_lost_wakeup}
use jun_core_v.JobObject.Order.{running_jobs, runs_in_order, quiescent_all_run}
use jun_core_v.JobObject.Deletion.{alone, with_thread, about_to_run, deleted_twice}

abbrev counted : JobObject
counted = record (with_thread 1) { job_queue = 7 ∷ []; use_count = 1; accepted = 7 ∷ [] }

-- The job is counted, and its poster is to try the exchange.
counted-Reachable : Reachable (counted, exchanging ∷ [])
unfolding agent_step job_object
counted-Reachable = alone counting (
    alone (linking 7) (
      alone (checking 7)
        (next _ _ (start (some 1) (with_thread 1) refl) (call_post_job (with_thread 1) [] 7))))

abbrev finished : JobObject
finished = record (with_thread 1) { accepted = 7 ∷ []; executed = 7 ∷ [] }

-- The job was run, and all calls have returned.
finished-Reachable : Reachable (finished, [])
unfolding agent_step dequeue_job claim_job
finished-Reachable = alone (flushed 1) (
    alone (rechecking 1) (
      alone (drained 1) (
        alone (draining 1 1)
          (alone (comparing 1 1) (alone (ran 1 1) (alone (running 1 1 7) (about_to_run 1 7)))))))

no_lost_wakeup_example :
    0 < length counted.scheduled + total owner (exchanging ∷ []) + total trier (exchanging ∷ [])
no_lost_wakeup_example =
    no_lost_wakeup (counted, exchanging ∷ []) counted-Reachable refl (omega arith)

quiescent_all_run_example : finished.executed ≡ finished.accepted
quiescent_all_run_example = quiescent_all_run finished finished-Reachable refl refl

runs_in_order_example :
    counted.accepted ≡ counted.executed ++ (running_jobs (exchanging ∷ []) ++ counted.job_queue)
runs_in_order_example = runs_in_order (counted, exchanging ∷ []) counted-Reachable

deleted_twice_example :
    (total (inside 1) (exchanging ∷ []) ≤ 1)
    × ((◌≡◌ {A = ℕ} 1 1) ⊎ (total (inside 1) (exchanging ∷ []) ≡ 0))
    × ((o : JobObject) × Reachable (o, deleting 2 ∷ deleting 1 ∷ [])
        × (o.accepted ≡ 7 ∷ [])
        × (o.job_thread ≡ 2)
        × (o.destroyed ≡ 0))
unfolding counted-Reachable alone
deleted_twice_example =
    deleted_twice (counted, exchanging ∷ []) counted-Reachable (omega arith) 1 1 2 7 (omega arith)
