-- ===== src/OnceInitializer.antt =====
-- JunCommon/synchronization/OnceInitializer.h with the policies of OnceInitializerPolicies.h, and
-- its one user JunCore/network/WSAInitializer.h: a global resource that the first caller sets up and
-- the last one tears down. Every thread that is inside `Initialize` or `Cleanup`, or holds a reference
-- between them, is a `Caller`, whose constructor says what it does next; a step of a caller makes one
-- access to the shared state. What `init_func` does is chosen by the step.
pub mod Weights
pub mod Exclusive
pub mod Race
mod Tests
use jun_core_v.Common.{
  ℕ, suc, ◌+◌, ◌-◌, List, [], ◌∷◌, ◌++◌, Bool, true, false, not, ◌&&◌, ◌==◌, if◌then◌else◌,
}

pub data InitState : Type 0 where
  not_initialized initializing initialized failed : InitState

-- How `init_func` ends: it returns true, returns false, or throws.
pub data InitResult : Type 0 where
  succeeded refused threw : InitResult

-- What a call of `Initialize` tells its caller.
pub data Answer : Type 0 where
  answered : Bool → Answer
  rethrown : Answer

-- `notified` is the flag of `MutexWaitPolicy`. Beyond the members, `inits` counts the runs of
-- `init_func` that were begun, `cleanups` those of `cleanup_func` that have ended, and `answers`
-- records what calls of `Initialize` have told their callers.
pub record OnceInit : Type 0 where
  pub state : InitState
  pub reference_count : ℕ
  pub notified : Bool
  pub inits : ℕ
  pub cleanups : ℕ
  pub answers : List Answer

abbrev pub fresh : OnceInit
fresh = record {
  state = not_initialized;
  reference_count = 0;
  notified = false;
  inits = 0;
  cleanups = 0;
  answers = [];
}

-- `ForceReset`
unfoldable pub force_reset : OnceInit → OnceInit
force_reset s = record s { state = not_initialized; reference_count = 0; notified = false }

abbrev pub is_initialized : OnceInit → Bool
is_initialized s = elim s.state [ initialized ↦ true | _ ↦ false ]

pub data WaitPolicy : Type 0 where
  spin_wait mutex_wait hybrid_wait : WaitPolicy

-- Whether `Wait` returns at once. The policies that spin or sleep do; the other one waits for the flag.
unfoldable pub wait_returns : WaitPolicy → Bool → Bool
wait_returns spin_wait notified = true
wait_returns mutex_wait notified = notified
wait_returns hybrid_wait notified = true

-- Only `MutexWaitPolicy` has a `NotifyCompletion`.
unfoldable pub notify_waiters : WaitPolicy → Bool → Bool
notify_waiters spin_wait notified = notified
notify_waiters mutex_wait notified = true
notify_waiters hybrid_wait notified = notified

pub data Caller : Type 0 where
  -- `Initialize` after `reference_count_++`: the load, the exchange, `init_func`, the new state, the
  -- notice to those who wait, and the way out without a reference
  loading exchanging calling_init : Caller
  storing notifying : InitResult → Caller
  leaving : Answer → Caller
  -- its loop: the load, and `Wait`
  reloading waiting : Caller
  -- `Initialize` has returned true, and `Cleanup` is still to be called
  holding : Caller
  -- `Cleanup`: the count, `cleanup_func`, the new state
  releasing cleaning resetting : Caller

abbrev answer_of : InitResult → Answer
answer_of succeeded = answered true
answer_of refused = answered false
answer_of threw = rethrown

abbrev pub tell : Answer → OnceInit → OnceInit
tell answer s = record s { answers = answer ∷ s.answers }

-- What a load of the state leads to, in `Initialize` and in its loop.
abbrev pub after_load : InitState → Caller → OnceInit → OnceInit × List Caller
after_load initialized otherwise s = (tell (answered true) s, holding ∷ [])
after_load failed otherwise s = (s, leaving (answered false) ∷ [])
after_load not_initialized otherwise s = (s, otherwise ∷ [])
after_load initializing otherwise s = (s, otherwise ∷ [])

abbrev pub exchange : InitState → OnceInit → OnceInit × List Caller
exchange not_initialized s =
    (record s { state = initializing; inits = suc s.inits }, calling_init ∷ [])
exchange _ s = (s, reloading ∷ [])

abbrev pub state_after : InitResult → InitState
state_after succeeded = initialized
state_after refused = failed
state_after threw = failed

abbrev pub after_notice : InitResult → OnceInit → OnceInit × List Caller
after_notice succeeded s = (tell (answered true) s, holding ∷ [])
after_notice refused s = (s, leaving (answered false) ∷ [])
after_notice threw s = (s, leaving rethrown ∷ [])

module _ (policy : WaitPolicy) where
  -- The next access of a thread: the new state, and where the thread stands then. `init` is what
  -- `init_func` does, if this is its turn.
  unfoldable pub caller_step : InitResult → Caller → OnceInit → OnceInit × List Caller
  caller_step init loading s = after_load s.state exchanging s
  caller_step init exchanging s = exchange s.state s
  caller_step init calling_init s = (s, storing init ∷ [])
  caller_step init (storing result) s =
      (record s { state = state_after result }, notifying result ∷ [])
  caller_step init (notifying result) s =
      after_notice result (record s { notified = notify_waiters policy s.notified })
  caller_step init (leaving answer) s =
      (tell answer (record s { reference_count = s.reference_count - 1 }), [])
  caller_step init reloading s = after_load s.state waiting s
  caller_step init waiting s =
      (s, (if wait_returns policy s.notified then reloading else waiting) ∷ [])
  caller_step init holding s = (s, releasing ∷ [])
  caller_step init releasing s = (
    record s { reference_count = s.reference_count - 1 },
    (if s.reference_count == 1 then cleaning ∷ [] else []),
  )
  caller_step init cleaning s = (record s { cleanups = suc s.cleanups }, resetting ∷ [])
  caller_step init resetting s = (record s { state = not_initialized }, [])

  abbrev pub System : Type 0
  System = OnceInit × List Caller

  -- The first access of `Initialize` is made when `Admits` allows it.
  pub data Step (Admits : List Caller → Type 0) : System → System → Type 0 where
    act :
        (s : OnceInit) (before : List Caller) (caller : Caller) (after : List Caller)
        (init : InitResult)
        → Step Admits
            (s, before ++ (caller ∷ after))
            ((caller_step init caller s).0, (before ++ (caller_step init caller s).1) ++ after)
    call_initialize :
        (s : OnceInit) (callers : List Caller)
        → Admits callers
        → Step Admits
            (s, callers)
            (record s { reference_count = suc s.reference_count }, loading ∷ callers)

  pub data Reachable (Admits : List Caller → Type 0) : System → Type 0 where
    start : Reachable Admits (fresh, [])
    next : (p p' : System) → Reachable Admits p → Step Admits p p' → Reachable Admits p'
