-- ===== src/Client/Reconnect.antt =====
-- What the reconnect thread achieves: no connection is forgotten, and it ends when it is told to.
use jun_core_v.Common.{
  ℕ, zero, suc, ◌+◌, ◌≤◌, ◌<◌, ◌≡◌, refl, false, some, length, arith, inl, inr, ◌⊎◌, ◌-◌, ltb,
  Bool-cases,
}
use jun_core_v.Connect.{ConnectAnswers}
use jun_core_v.Client.{
  Client, Thread, not_started, testing, acquiring, woken, loading, ended, posting, joining,
  thread_step, attempt, run_thread, Reachable,
}
use jun_core_v.Client.Invariant.{
  Invariant, Reachable-Invariant, thread_step-Invariant, attempt_lem, loaded, left,
}

-- When the thread waits at a lowered semaphore, no thread is inside `TriggerReconnect` and the first
-- connections are posted, the connections that are made or under way are as many as the client is to
-- have, up to those that a failed `PostConnectEx` gave up and those that ended after the stop.
pub idle-all_connected :
    {c : Client}
    → Reachable c
    → c.thread ≡ acquiring
    → c.signal ≡ false
    → c.triggering ≡ 0
    → c.starting ≡ 0
    → length c.connecting + length c.made + c.failed_posts + c.dropped ≡ c.target
idle-all_connected {c} r waits lowered quiet posted =
    let i = Reachable-Invariant r in ground (arith, i.signalled)

-- The steps that are left to the thread when nobody wakes it again.
abbrev pub steps_left : Thread → ℕ → ℕ
steps_left not_started pending = 0
steps_left testing pending = 1
steps_left acquiring pending = 2
steps_left woken pending = 1
steps_left loading pending = pending + 3
steps_left (posting n rest) pending = rest + 2
steps_left ended pending = 0

-- While `StopClient` joins, the thread has ended or makes a step and comes closer to its end.
progress :
    (t : Thread) (a : ConnectAnswers) (c : Client)
    → c.thread ≡ t
    → c.stop ≡ joining
    → Invariant c
    → (t ≡ ended)
      ⊎ ((c' : Client) × (thread_step t a c ≡ some c')
          × (c'.stop ≡ joining)
          × (steps_left c'.thread c'.pending < steps_left t c.pending))
unfolding thread_step
progress not_started a c e j i = absurd (ground (arith, i.started))
progress testing a c e j i =
    inr (record c { thread = ended }, ground (arith, i.stopped), j, omega arith)
progress acquiring a c e j i =
    inr (record c { signal = false; thread = woken }, ground (arith, i.woken_up), j, omega arith)
progress woken a c e j i =
    inr (record c { thread = ended }, ground (arith, i.stopped), j, omega arith)
progress loading a c e j i = elim (Bool-cases (ltb 0 c.pending)) [
  | inl some_pending ↦
      inr (record c { thread = posting c.pending c.pending }, rw some_pending refl, j, omega arith)
  | inr none_pending ↦ inr (record c { thread = testing }, rw none_pending refl, j, omega arith)
]
progress (posting n zero) a c e j i =
    inr (record c { pending = c.pending - n; thread = testing }, refl, j, omega arith)
progress (posting n (suc rest)) a c e j i =
    elim (attempt_lem a (record c { thread = posting n rest })) [
      | inl (s, p) ↦
          inr (attempt a (record c { thread = posting n rest }), refl, rw p j, rw p (omega arith))
      | inr p ↦
          inr (attempt a (record c { thread = posting n rest }), refl, rw p j, rw p (omega arith))
    ]
progress ended a c e j i = inl refl

-- While `StopClient` waits at its `join`, the reconnect thread never waits: it comes to its end within
-- as many steps as it has posts left, and three more, and those of a load that is still to come.
run-ends :
    (fuel : ℕ) (a : ConnectAnswers) (c : Client)
    → Invariant c
    → c.stop ≡ joining
    → steps_left c.thread c.pending ≤ fuel
    → (run_thread fuel a c).thread ≡ ended
unfolding run_thread thread_step
run-ends zero a c i j h = elim (progress c.thread a c refl j i) [
  | inl e ↦ e
  | inr (c', e, j', lt) ↦ absurd (omega arith)
]
run-ends (suc fuel) a c i j h = elim (progress c.thread a c refl j i) [
  | inl e ↦ rw (e, run_thread, thread_step) e
  | inr (c', e, j', lt) ↦
      rw (e, run_thread)
        (run-ends fuel a c' (thread_step-Invariant c.thread a c c' refl e i) j' (omega arith))
]

steps_bound :
    (t : Thread) (pending : ℕ) → left t ≤ loaded t → steps_left t pending ≤ pending + loaded t + 3
steps_bound t pending h = ground arith

-- In every reachable state in which `StopClient` waits at its `join`, the reconnect thread, left to
-- itself, ends within `c.pending + loaded c.thread + 3` steps: the join returns.
pub join-returns :
    {c : Client} (a : ConnectAnswers)
    → Reachable c
    → c.stop ≡ joining
    → (run_thread (c.pending + loaded c.thread + 3) a c).thread ≡ ended
join-returns {c} a r j =
    let i = Reachable-Invariant r in run-ends _ a c i j (steps_bound c.thread c.pending i.within.0)
