-- ===== src/OnceInitializer/Weights.antt =====
-- What the threads inside OnceInitializer.h count for.
use jun_core_v.Common.{ℕ, List}
use jun_core_v.Common.Weights.{totals}
use jun_core_v.OnceInitializer.{
  Caller, InitState, not_initialized, initializing, initialized, failed, calling_init, storing,
  notifying, reloading, waiting, holding, releasing, cleaning, resetting, loading, exchanging,
  leaving, succeeded, refused, threw,
}

pub data Kind : Type 0 where
  counted initializer waiter notifier owner cleaner tearer resetter passing : Kind

-- Threads that `reference_count_` counts.
abbrev count_weight : Caller → ℕ
count_weight cleaning = 0
count_weight resetting = 0
count_weight _ = 1

-- Threads between the exchange that they won and the store of the result.
abbrev init_weight : Caller → ℕ
init_weight calling_init = 1
init_weight (storing result) = 1
init_weight _ = 0

-- Threads in the loop of `Initialize`.
abbrev wait_weight : Caller → ℕ
wait_weight reloading = 1
wait_weight waiting = 1
wait_weight _ = 0

abbrev notify_weight : Caller → ℕ
notify_weight (notifying result) = 1
notify_weight _ = 0

-- Threads whose call of `Initialize` has returned true, or is about to.
abbrev own_weight : Caller → ℕ
own_weight (notifying succeeded) = 1
own_weight holding = 1
own_weight releasing = 1
own_weight _ = 0

abbrev clean_weight : Caller → ℕ
clean_weight cleaning = 1
clean_weight resetting = 1
clean_weight _ = 0

abbrev tear_weight : Caller → ℕ
tear_weight cleaning = 1
tear_weight _ = 0

abbrev reset_weight : Caller → ℕ
reset_weight resetting = 1
reset_weight _ = 0

-- Threads before the exchange, or on the way out after a failure.
abbrev pass_weight : Caller → ℕ
pass_weight loading = 1
pass_weight exchanging = 1
pass_weight (leaving answer) = 1
pass_weight (notifying refused) = 1
pass_weight (notifying threw) = 1
pass_weight _ = 0

abbrev pub weight : Kind → Caller → ℕ
weight counted = count_weight
weight initializer = init_weight
weight waiter = wait_weight
weight notifier = notify_weight
weight owner = own_weight
weight cleaner = clean_weight
weight tearer = tear_weight
weight resetter = reset_weight
weight passing = pass_weight

abbrev pub number : Kind → List Caller → ℕ
number kind callers = totals weight callers kind

abbrev pub is_initializing : InitState → ℕ
is_initializing initializing = 1
is_initializing _ = 0

abbrev pub is_touched : InitState → ℕ
is_touched not_initialized = 0
is_touched _ = 1

abbrev pub is_settled : InitState → ℕ
is_settled initialized = 1
is_settled failed = 1
is_settled _ = 0

abbrev pub is_ready : InitState → ℕ
is_ready initialized = 1
is_ready _ = 0
