-- ===== src/JobObject/Deletion.antt =====
-- Which threads may delete the object in `ProcessJobObjects` of JunCore/logic/JobThread.cpp, and what
-- becomes of that when `Flush` of JobObject.cpp has handed the object over to another thread.
use jun_core_v.Common.{
  ℕ, ◌+◌, ◌≤◌, ◌≡◌, ◌≢◌, refl, sym, ap, ◌∙◌, subst, if◌then◌else◌, List, [], ◌∷◌, ◌++◌, true, false,
  ◌==◌, none, some, arith, ℕ_discrete, ◌⊎◌, inl, inr,
}
use mathlib.Core.Option.{some-injective}
use jun_core_v.JobObject.{
  JobObject, Agent, System, Step, act, call_post_job, call_mark_for_delete, call_set_job_thread,
  take_scheduled, Reachable, start, next, job_object, agent_step, dequeue_job, claim_job,
  mark_for_delete, set_job_thread, inside, checking, linking, counting, exchanging, posting,
  flushing, entering, draining, claiming, running, ran, comparing, transferring, reposting, flushed,
  deleting,
}
use jun_core_v.Common.Weights.{bit, total, total_cons, total_at, total-append, around}

-- A run in which no step moves the object to another thread.
abbrev pub Stays : {s : System} → Reachable s → Type 0
Stays (start thread o e) = Unit {0}
Stays (next s s' r st) = Stays r × (s'.0.job_thread ≡ s.0.job_thread)

-- With `n` entries in the body of the loop of `thread`: there is at most one, and none, nor an entry
-- in the queue of `thread`, if it is not the thread of the object.
abbrev Alone : ℕ → ℕ → JobObject → Type 0
Alone thread n o =
    (n ≤ 1) × (thread ≢ o.job_thread → n + total (λ (t : ℕ). bit (t == thread)) o.scheduled ≡ 0)

agent_step-Alone :
    (thread : ℕ) (agent : Agent) (o : JobObject) (others : ℕ)
    → Alone thread (others + inside thread agent) o
    → Alone thread (others + total (inside thread) (agent_step agent o).1) (agent_step agent o).0
unfolding agent_step dequeue_job claim_job total
agent_step-Alone thread posting o others h =
    ground (arith, h, total-append (λ (t : ℕ). bit (t == thread)) o.scheduled (o.job_thread ∷ []))
agent_step-Alone thread (transferring me) o others h =
    ground (arith, h, total-append (λ (t : ℕ). bit (t == thread)) o.scheduled (o.job_thread ∷ []))
agent_step-Alone thread (reposting me) o others h =
    ground (arith, h, total-append (λ (t : ℕ). bit (t == thread)) o.scheduled (o.job_thread ∷ []))
agent_step-Alone thread agent o others h = ground (arith, h)

module _ (thread : ℕ) where
  Step-Alone :
      {s s' : System}
      → Step s s'
      → s'.0.job_thread ≡ s.0.job_thread
      → Alone thread (total (inside thread) s.1) s.0
      → Alone thread (total (inside thread) s'.1) s'.0
  unfolding mark_for_delete set_job_thread
  Step-Alone (act o before agent after) stays h =
      around agent_step (Alone thread) (inside thread) (agent_step-Alone thread) o before agent
        after h
  Step-Alone (call_post_job o agents job) stays h =
      rw (total_cons (inside thread) (checking job) agents) (ground (arith, h))
  Step-Alone (call_mark_for_delete o agents) stays h = h
  Step-Alone (call_set_job_thread o o' agents none e) stays h = absurd (ground (arith, e))
  Step-Alone (call_set_job_thread o o' agents (some t) e) stays h =
      let made = some-injective _ _ e in
      let same : t ≡ o.job_thread = ap (λ (q : JobObject). q.job_thread) made ∙ stays in
      subst (λ q. Alone thread (total (inside thread) agents) q) made
        (h.0, λ elsewhere. h.1 (λ own. elsewhere (own ∙ sym same)))
  Step-Alone (take_scheduled o agents before t after e free) stays h =
      let here = total_at (λ (t : ℕ). bit (t == thread)) before t after in
      let rest = total-append (λ (t : ℕ). bit (t == thread)) before after in
      let more = total_cons (inside thread) (flushing t) agents in
      let entries = ap (total (λ (t : ℕ). bit (t == thread))) e in
      elim (ℕ_discrete t thread) [
        | yes same ↦
            let none_in : total (inside thread) agents ≡ 0 =
              subst (λ k. total (inside k) agents ≡ 0) same free in
            ground (arith, h, here, rest, more, entries, none_in, same)
        | no other ↦ ground (arith, h, here, rest, more, entries, other)
      ]

  -- As long as the object is not moved, no other thread than its own is inside the loop.
  Stays-Alone :
      {s : System} (r : Reachable s) → Stays r → Alone thread (total (inside thread) s.1) s.0
  unfolding job_object total
  Stays-Alone (start none o e) stays = absurd (ground (arith, e))
  Stays-Alone (start (some t) o e) stays =
      subst (λ q. Alone thread 0 q) (some-injective _ _ e) (ground arith)
  Stays-Alone (next s s' r st) stays = Step-Alone st stays.1 (Stays-Alone r stays.0)

abbrev pub with_thread : ℕ → JobObject
with_thread thread = record {
  job_queue = [];
  use_count = 0;
  processing = false;
  marked_for_delete = false;
  job_thread = thread;
  scheduled = [];
  accepted = [];
  executed = [];
  destroyed = 0;
}

-- One step of the only thread.
unfoldable pub alone :
    {o : JobObject} (agent : Agent)
    → Reachable (o, agent ∷ [])
    → Reachable ((agent_step agent o).0, ([] ++ (agent_step agent o).1) ++ [])
alone {o} agent r = next _ _ r (act o [] agent [])

-- A job that was posted while the object was idle is about to be run by the object's thread.
pub about_to_run :
    (thread job : ℕ)
    → Reachable (
      record (with_thread thread) { processing = true; accepted = job ∷ [] },
      running thread thread job ∷ [],
    )
unfolding agent_step dequeue_job claim_job total
about_to_run thread job =
    let posted =
      next _ _ (start (some thread) (with_thread thread) (unfold job_object in refl))
        (call_post_job (with_thread thread) [] job) in
    let queued =
      alone posting
        (alone exchanging (alone counting (alone (linking job) (alone (checking job) posted)))) in
    let taken = next _ _ queued (take_scheduled _ [] [] thread [] refl refl) in
    alone (claiming thread thread)
      (alone (draining thread thread) (alone (entering thread) (alone (flushing thread) taken)))

abbrev handing_over : ℕ → ℕ → JobObject
handing_over thread job = record (with_thread thread) {
  processing = true;
  accepted = job ∷ [];
  executed = job ∷ [];
}

-- The job moves the object to another thread, and `Flush` sees it.
about_to_transfer :
    (old new job : ℕ) → old ≢ new → Reachable (handing_over new job, transferring old ∷ [])
unfolding agent_step set_job_thread
about_to_transfer old new job different =
    let moved = next _ _ (about_to_run old job) (
      call_set_job_thread _ (record (handing_over new job) { executed = [] })
        (running old old job ∷ []) (some new) refl) in
    let seen : (new == old) ≡ false = ground arith in
    subst
      (λ same.
        let r : JobObject × List Agent =
          if same
          then (handing_over new job, draining old old ∷ [])
          else (handing_over new job, transferring old ∷ []) in
        Reachable (r.0, ([] ++ r.1) ++ []))
      seen (alone (comparing old old) (alone (ran old old) (alone (running old old job) moved)))

-- The object stands in the queue of its new thread while the old one has yet to look at the mark,
-- and the new one takes it and is about to look too.
both_look :
    (old new job : ℕ)
    → old ≢ new
    → Reachable
        (record (handing_over new job) { marked_for_delete = true }, flushed new ∷ flushed old ∷ [])
unfolding agent_step mark_for_delete total
both_look old new job different =
    let queued = alone (transferring old) (about_to_transfer old new job different) in
    let outside : total (inside new) (flushed old ∷ []) ≡ 0 = ground (arith, different) in
    let taken = next _ _ queued (take_scheduled _ (flushed old ∷ []) [] new [] refl outside) in
    let marked = next _ _ taken (call_mark_for_delete _ (flushing new ∷ flushed old ∷ [])) in
    next _ _ marked (act _ [] (flushing new) (flushed old ∷ []))

-- A move is what lets two threads delete an object. In a run that does not move it, at most one entry
-- is in the loop of any thread, and none in that of a thread other than the object's own. But for any
-- two different threads there is a run with a single job, which moves its object from one to the
-- other, after which both are about to delete it.
pub deleted_twice :
    (s : System) (r : Reachable s)
    → Stays r
    → (thread old new job : ℕ) → old ≢ new
    → (total (inside thread) s.1 ≤ 1)
      × ((thread ≡ s.0.job_thread) ⊎ (total (inside thread) s.1 ≡ 0))
      × ((o : JobObject) × Reachable (o, deleting new ∷ deleting old ∷ [])
          × (o.accepted ≡ job ∷ [])
          × (o.job_thread ≡ new)
          × (o.destroyed ≡ 0))
unfolding agent_step
deleted_twice s r stays thread old new job different =
    let h = Stays-Alone thread r stays in
    let look = both_look old new job different in
    let first = next _ _ look (act _ [] (flushed new) (flushed old ∷ [])) in
    let second = next _ _ first (act _ (deleting new ∷ []) (flushed old) []) in
    (
      h.0,
      elim (ℕ_discrete thread s.0.job_thread) [
        | yes own ↦ inl own
        | no elsewhere ↦ inr (omega (arith, h.1 elsewhere))
      ],
      (_, second, refl, refl, refl),
    )
