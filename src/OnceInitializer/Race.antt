-- ===== src/OnceInitializer/Race.antt =====
-- What OnceInitializer.h allows when calls of `Initialize` begin during the last `Cleanup`.
use jun_core_v.Common.{
  ℕ, zero, suc, ◌+◌, ◌≡◌, refl, subst, Bool, List, [], ◌∷◌, ◌++◌, append-nil, arith, true, false,
}
use jun_core_v.Common.Weights.{total}
use jun_core_v.OnceInitializer.{
  OnceInit, Caller, InitResult, InitState, Answer, WaitPolicy, succeeded, initializing, initialized,
  loading, exchanging, calling_init, storing, notifying, holding, releasing, cleaning, resetting,
  answered, act, call_initialize, Reachable, start, next, caller_step, fresh, notify_waiters,
}
use jun_core_v.OnceInitializer.Weights.{initializer, number}

-- Calls of `Initialize` begin at any time.
abbrev pub Anyone : List Caller → Type 0
Anyone callers = Unit {0}

module _ {Admits : List Caller → Type 0} (policy : WaitPolicy) where
  -- The thread at the head of the list makes one access.
  pub go :
      (init : InitResult) (caller : Caller) (s : OnceInit) (after : List Caller)
      → Reachable policy Admits (s, caller ∷ after)
      → Reachable policy Admits
          ((caller_step policy init caller s).0, (caller_step policy init caller s).1 ++ after)
  go init caller s after r = next (s, caller ∷ after) _ r (act s [] caller after init)

  pub call :
      (s : OnceInit) (callers : List Caller)
      → Admits callers
      → Reachable policy Admits (s, callers)
      → Reachable policy Admits
          (record s { reference_count = suc s.reference_count }, loading ∷ callers)
  call s callers admitted r = next (s, callers) _ r (call_initialize s callers admitted)

module _ (policy : WaitPolicy) where
  abbrev Reached : OnceInit → List Caller → Type 0
  Reached s callers = Reachable policy Anyone (s, callers)

  -- A state in which no thread is counted.
  abbrev idle : InitState → Bool → ℕ → ℕ → List Answer → OnceInit
  idle state notified inits cleanups answers = record {
    state = state;
    reference_count = 0;
    notified = notified;
    inits = inits;
    cleanups = cleanups;
    answers = answers;
  }

  -- Threads that have all run `cleanup_func`, before the first of them resets the state.
  resetters : ℕ → List Caller
  resetters zero = []
  resetters (suc n) = resetting ∷ resetters n

  record Torn (n : ℕ) : Type 0 where
    notified : Bool
    inits : ℕ
    cleanups : ℕ
    answers : List Answer
    reached : Reached (idle initialized notified inits cleanups answers) (resetting ∷ resetters n)

  -- The resource is set up, handed out once, and torn down.
  first : Torn 0
  unfolding caller_step resetters
  first = record {
    notified = notify_waiters policy false;
    inits = 1;
    cleanups = 1;
    answers = answered true ∷ [];
    reached = go policy succeeded cleaning _ _ (
        go policy succeeded releasing _ _ (
          go policy succeeded holding _ _ (
            go policy succeeded (notifying succeeded) _ _ (
              go policy succeeded (storing succeeded) _ _ (
                go policy succeeded calling_init _ _ (
                  go policy succeeded exchanging _ _
                    (go policy succeeded loading _ _ (call policy fresh [] tt start))))))));
  }

  -- During the teardown another thread is told that the resource is ready, and tears it down too.
  another : (n : ℕ) → Torn n → Torn (suc n)
  unfolding caller_step resetters
  another n t = record {
    notified = t.notified;
    inits = t.inits;
    cleanups = suc t.cleanups;
    answers = answered true ∷ t.answers;
    reached = go policy succeeded cleaning _ _ (
        go policy succeeded releasing _ _ (
          go policy succeeded holding _ _
            (go policy succeeded loading _ _ (call policy _ _ tt t.reached))));
  }

  torn : (n : ℕ) → Torn n
  torn zero = first
  torn (suc n) = another n (torn n)

  record Overlap (n : ℕ) : Type 0 where
    state : OnceInit
    callers : List Caller
    reached : Reached state callers
    inside : number initializer callers ≡ n

  -- One reset, and then one call of `Initialize` that wins the exchange.
  abbrev won : OnceInit → OnceInit
  won s = record s {
    state = initializing;
    reference_count = suc s.reference_count;
    inits = suc s.inits;
  }

  reset_and_win :
      (s : OnceInit) (before after : List Caller)
      → Reached s (before ++ (resetting ∷ after))
      → Reached (won s) (calling_init ∷ (before ++ after))
  unfolding caller_step
  reset_and_win s before after r =
      subst (λ l. Reached (won s) (calling_init ∷ (l ++ after))) (append-nil before)
        (go policy succeeded exchanging _ _ (
          go policy succeeded loading _ _
            (call policy _ _ tt (next _ _ r (act s before resetting after succeeded)))))

  resets :
      (n : ℕ) (s : OnceInit) (before : List Caller)
      → Reached s (before ++ resetters n)
      → Overlap (n + number initializer before)
  unfolding resetters total
  resets zero s before r = record {
    state = s;
    callers = before;
    reached = subst (Reached s) (append-nil before) r;
    inside = omega arith;
  }
  resets (suc n) s before r =
      let o = resets n (won s) (calling_init ∷ before) (reset_and_win s before (resetters n) r) in
      record {
        state = o.state;
        callers = o.callers;
        reached = o.reached;
        inside = omega (arith, o.inside);
      }

  -- When calls of `Initialize` may begin at any time, also while the last `Cleanup` is still
  -- running, the class does not keep its promise: for every number `n` a state can be reached in which
  -- `n` threads are running `init_func` at once.
  pub initialize-overlap :
      (n : ℕ)
      → (s : OnceInit) × (callers : List Caller) × Reachable policy Anyone (s, callers)
        × (number initializer callers ≡ n)
  unfolding resetters total
  initialize-overlap zero = (fresh, [], start, refl)
  initialize-overlap (suc n) =
      let t = torn n in
      let o = resets (suc n) _ [] t.reached in
      (o.state, o.callers, o.reached, omega (arith, o.inside))
