-- ===== src/OnceInitializer/Exclusive.antt =====
-- What OnceInitializer.h promises as long as no call of `Initialize` begins during the last `Cleanup`.
use jun_core_v.Common.{ℕ, ◌+◌, ◌≤◌, ◌<◌, ◌≡◌, ◌⊎◌, List, ◌∷◌, ◌++◌, true, arith}
use jun_core_v.Common.Weights.{total, totals, around_kinds, bit}
use jun_core_v.OnceInitializer.{
  OnceInit, Caller, InitResult, WaitPolicy, mutex_wait, succeeded, refused, threw, initialized,
  calling_init, storing, notifying, act, call_initialize, Reachable, start, next, caller_step,
  notify_waiters,
}
use jun_core_v.OnceInitializer.Weights.{
  Kind, counted, initializer, waiter, notifier, owner, cleaner, tearer, resetter, passing, weight,
  number, is_initializing, is_touched, is_settled, is_ready,
}

-- No thread is between the last `fetch_sub` and the reset of the state.
abbrev pub NoCleaner : List Caller → Type 0
NoCleaner callers = number cleaner callers ≡ 0

-- With `of` the numbers of threads of each kind.
record Orderly (of : Kind → ℕ) (s : OnceInit) : Type 0 where
  count : s.reference_count ≡ of counted
  parts : of counted ≡ of initializer + of waiter + of owner + of passing
  one_initializer : of initializer ≡ is_initializing s.state
  owned : (of owner ≡ 0) ⊎ (is_ready s.state ≡ 1)
  waited : (of waiter ≡ 0) ⊎ (is_touched s.state ≡ 1)
  cleaned : (of cleaner ≡ 0) ⊎ ((is_ready s.state ≡ 1) × (of counted ≡ 0) × (of cleaner ≡ 1))
  begun : s.inits + of resetter ≡ s.cleanups + is_touched s.state
  last : of cleaner ≡ of tearer + of resetter

caller_step-Orderly :
    (policy : WaitPolicy) (init : InitResult) (caller : Caller) (s : OnceInit) (others : Kind → ℕ)
    → Orderly (λ k. others k + weight k caller) s
    → Orderly
        (λ k. others k + totals weight (caller_step policy init caller s).1 k)
        (caller_step policy init caller s).0
unfolding caller_step total
caller_step-Orderly policy succeeded calling_init s others h = ground arith
caller_step-Orderly policy refused calling_init s others h = ground arith
caller_step-Orderly policy threw calling_init s others h = ground arith
caller_step-Orderly policy init (storing succeeded) s others h = ground arith
caller_step-Orderly policy init (storing refused) s others h = ground arith
caller_step-Orderly policy init (storing threw) s others h = ground arith
caller_step-Orderly policy init (notifying succeeded) s others h = ground arith
caller_step-Orderly policy init (notifying refused) s others h = ground arith
caller_step-Orderly policy init (notifying threw) s others h = ground arith
caller_step-Orderly policy init caller s others h = ground arith

Reachable-Orderly :
    (policy : WaitPolicy) (s : OnceInit) (callers : List Caller)
    → Reachable policy NoCleaner (s, callers)
    → Orderly (totals weight callers) s
unfolding total
Reachable-Orderly policy _ _ start = ground arith
Reachable-Orderly policy _ _ (next _ _ r (act s before caller after init)) =
    around_kinds (caller_step policy init) Orderly weight (caller_step-Orderly policy init) s before
      caller after (Reachable-Orderly policy s (before ++ (caller ∷ after)) r)
Reachable-Orderly policy _ _ (next _ _ r (call_initialize s callers quiet)) =
    ground (arith, Reachable-Orderly policy s callers r)

-- If no call of `Initialize` begins while another thread is between the last decrement of
-- `Cleanup` and its reset of the state, then in every reachable state at most one thread is
-- running `init_func`; if a thread has been told that the resource is ready, or is about to be, and
-- has not yet given its reference back, then the state is `INITIALIZED` and no thread is tearing the
-- resource down; and `init_func` has been begun as often as `cleanup_func` has ended, or once more.
pub initialize-exclusive :
    (policy : WaitPolicy) (s : OnceInit) (callers : List Caller)
    → Reachable policy NoCleaner (s, callers)
    → (number initializer callers ≤ 1)
      × ((number owner callers ≡ 0) ⊎ ((s.state ≡ initialized) × (number cleaner callers ≡ 0)))
      × (s.cleanups ≤ s.inits)
      × (s.inits ≤ s.cleanups + 1)
initialize-exclusive policy s callers r = ground (arith, Reachable-Orderly policy s callers r)

-- A settled state has been announced, or is about to be.
abbrev Announced : (Kind → ℕ) → OnceInit → Type 0
Announced of s = is_settled s.state ≤ bit s.notified + of notifier

caller_step-Announced :
    (init : InitResult) (caller : Caller) (s : OnceInit) (others : Kind → ℕ)
    → Announced (λ k. others k + weight k caller) s
    → Announced
        (λ k. others k + totals weight (caller_step mutex_wait init caller s).1 k)
        (caller_step mutex_wait init caller s).0
unfolding caller_step total notify_waiters
caller_step-Announced init (notifying succeeded) s others h = ground arith
caller_step-Announced init (notifying refused) s others h = ground arith
caller_step-Announced init (notifying threw) s others h = ground arith
caller_step-Announced init caller s others h = ground arith

Reachable-Announced :
    {Admits : List Caller → Type 0} (s : OnceInit) (callers : List Caller)
    → Reachable mutex_wait Admits (s, callers)
    → Announced (totals weight callers) s
unfolding total
Reachable-Announced _ _ start = ground arith
Reachable-Announced _ _ (next _ _ r (act s before caller after init)) =
    around_kinds (caller_step mutex_wait init) Announced weight (caller_step-Announced init) s
      before caller after (Reachable-Announced s (before ++ (caller ∷ after)) r)
Reachable-Announced _ _ (next _ _ r (call_initialize s callers _)) =
    ground (arith, Reachable-Announced s callers r)

-- With `MutexWaitPolicy`, and if no call of `Initialize` begins during the last `Cleanup`, no
-- thread waits in vain: while one is in the loop of `Initialize`, the flag that ends its wait is set,
-- or another thread is running `init_func` or about to set that flag.
pub waiting-awaited :
    (s : OnceInit) (callers : List Caller)
    → Reachable mutex_wait NoCleaner (s, callers)
    → 0 < number waiter callers
    → (s.notified ≡ true) ⊎ (0 < number initializer callers + number notifier callers)
waiting-awaited s callers r h =
    ground (arith, Reachable-Orderly mutex_wait s callers r, Reachable-Announced s callers r)
