-- ===== src/RecursiveLock/Tests.antt =====
-- RecursiveLock.cpp at concrete calls.
use jun_core_v.Common.{ℕ, ◌≡◌, refl, arith}
use jun_core_v.RecursiveLock.{
  System, locking, lock_step, set_thread, unlocked, Reachable, start, next, call_lock, in_lock,
}
use jun_core_v.RecursiveLock.Exclusion.{lock-exclusive}

abbrev called : ℕ → System → System
called i (l, threads) = (l, set_thread threads i (locking, (threads i).1))

abbrev ran : ℕ → System → System
ran i (l, threads) =
    ((lock_step i l (threads i)).0, set_thread threads i (lock_step i l (threads i)).1)

-- Thread 3 has locked once, and then twice.
abbrev locked_once : System
locked_once = ran 3 (ran 3 (ran 3 (ran 3 (called 3 unlocked))))

abbrev locked_twice : System
locked_twice = ran 3 (ran 3 (called 3 locked_once))

run : (s : System) → Reachable s → Reachable (ran 3 s)
run (l, threads) r = next _ _ r (in_lock 3 l threads)

locked_once_reached : Reachable locked_once
locked_once_reached =
    run _ (run _ (run _ (run _ (next _ _ start (call_lock 3 unlocked.0 unlocked.1 refl)))))

locked_twice_reached : Reachable locked_twice
unfolding lock_step
locked_twice_reached =
    run _ (run _ (next _ _ locked_once_reached (call_lock 3 locked_once.0 locked_once.1 refl)))

lock-exclusive_example : (locked_twice.1 5).1 ≡ 0
unfolding lock_step
lock-exclusive_example =
    lock-exclusive locked_twice.0 locked_twice.1 3 5 locked_twice_reached (omega arith)
      (omega arith)

counted_twice : locked_twice.0.lock_count ≡ 2
unfolding lock_step
counted_twice = refl
