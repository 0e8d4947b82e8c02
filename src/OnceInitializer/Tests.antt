-- ===== src/OnceInitializer/Tests.antt =====
-- OnceInitializer.h at concrete calls.
use jun_core_v.Common.{◌+◌, ◌≡◌, ◌≤◌, ◌⊎◌, refl, false, List, [], ◌∷◌}
use jun_core_v.Common.Weights.{total}
use jun_core_v.OnceInitializer.{
  OnceInit, Caller, initialized, initializing, succeeded, refused, threw, loading, exchanging,
  calling_init, storing, notifying, waiting, reloading, spin_wait, mutex_wait, hybrid_wait,
  Reachable, start, caller_step, fresh,
}
use jun_core_v.OnceInitializer.Weights.{number, initializer, owner, cleaner}
use jun_core_v.OnceInitializer.Exclusive.{NoCleaner, initialize-exclusive}
use jun_core_v.OnceInitializer.Race.{Anyone, go, call, initialize-overlap}

abbrev busy : OnceInit
busy = record {
  state = initializing;
  reference_count = 2;
  notified = false;
  inits = 1;
  cleanups = 0;
  answers = [];
}

-- One thread is in `init_func`, and another waits for it.
abbrev two_callers : List Caller
two_callers = waiting ∷ calling_init ∷ []

two_callers_reached : Reachable mutex_wait NoCleaner (busy, two_callers)
unfolding caller_step total
two_callers_reached = go mutex_wait succeeded reloading _ _ (
    go mutex_wait succeeded exchanging _ _ (
      go mutex_wait succeeded loading _ _ (
        call mutex_wait _ _ refl (
          go mutex_wait succeeded exchanging _ _
            (go mutex_wait succeeded loading _ _ (call mutex_wait fresh [] refl start))))))

initialize-exclusive_example :
    (number initializer two_callers ≤ 1)
    × ((number owner two_callers ≡ 0)
        ⊎ ((busy.state ≡ initialized) × (number cleaner two_callers ≡ 0)))
    × (busy.cleanups ≤ busy.inits)
    × (busy.inits ≤ busy.cleanups + 1)
initialize-exclusive_example = initialize-exclusive mutex_wait busy two_callers two_callers_reached

initialize-overlap_example :
    (s : OnceInit) × (callers : List Caller) × Reachable spin_wait Anyone (s, callers)
    × (number initializer callers ≡ 2)
initialize-overlap_example = initialize-overlap spin_wait 2

-- A refused initialisation leaves the state failed.
refused_step : (caller_step hybrid_wait threw (storing refused) busy).1 ≡ notifying refused ∷ []
unfolding caller_step
refused_step = refl
