-- ===== src/RecursiveLock.antt =====
-- JunCommon/synchronization/RecursiveLock.h and RecursiveLock.cpp: a lock that the thread which holds
-- it may take again. The `SRWLOCK` of the system is the thread that holds it, if any; taking it waits
-- until it is free. A step of a thread makes one access to shared state.
pub mod Soundness
pub mod Exclusion
mod Tests
use jun_core_v.Common.{
  ℕ, zero, suc, ◌+◌, ◌-◌, ◌≡◌, ◌<◌, Bool, true, false, ◌==◌, ltb, if◌then◌else◌, Option, none, some,
}

-- `thread_id` is `none` for -1, the identifier of no thread.
pub record RecursiveLock : Type 0 where
  pub lock : Option ℕ
  pub thread_id : Option ℕ
  pub lock_count : ℕ

-- Where a thread stands: outside, in `Lock` before the test, before `AcquireSRWLockExclusive`, before
-- `lockCount++` in either branch, before `thread_id = id`; in `Unlock` before the test, before
-- `lockCount--` of the first branch, before `thread_id = -1`, before `lockCount--`, before
-- `ReleaseSRWLockExclusive`.
pub data Place : Type 0 where
  outside locking acquiring counting_again counting naming : Place
  unlocking uncounting_again unnaming uncounting releasing : Place

-- Its place, and how often it has locked and not unlocked.
abbrev pub Thread : Type 0
Thread = Place × ℕ

abbrev pub is_own : ℕ → Option ℕ → Bool
is_own id none = false
is_own id (some holder) = id == holder

abbrev pub acquire : ℕ → ℕ → Option ℕ → RecursiveLock → RecursiveLock × Thread
acquire id depth none l = (record l { lock = some id }, (counting, depth))
acquire id depth (some holder) l = (l, (acquiring, depth))

-- `Lock` from its test on.
unfoldable pub lock_step : ℕ → RecursiveLock → Thread → RecursiveLock × Thread
lock_step id l (locking, depth) =
    (l, (if is_own id l.thread_id then counting_again else acquiring, depth))
lock_step id l (acquiring, depth) = acquire id depth l.lock l
lock_step id l (counting_again, depth) =
    (record l { lock_count = suc l.lock_count }, (outside, suc depth))
lock_step id l (counting, depth) = (record l { lock_count = suc l.lock_count }, (naming, depth))
lock_step id l (naming, depth) = (record l { thread_id = some id }, (outside, suc depth))
lock_step id l (place, depth) = (l, (place, depth))

-- `Unlock` from its test on.
unfoldable pub unlock_step : ℕ → RecursiveLock → Thread → RecursiveLock × Thread
unlock_step id l (unlocking, depth) =
    (l, (if ltb 1 l.lock_count then uncounting_again else unnaming, depth))
unlock_step id l (uncounting_again, depth) =
    (record l { lock_count = l.lock_count - 1 }, (outside, depth - 1))
unlock_step id l (unnaming, depth) = (record l { thread_id = none }, (uncounting, depth))
unlock_step id l (uncounting, depth) =
    (record l { lock_count = l.lock_count - 1 }, (releasing, depth))
unlock_step id l (releasing, depth) = (record l { lock = none }, (outside, depth - 1))
unlock_step id l (place, depth) = (l, (place, depth))

abbrev pub System : Type 0
System = RecursiveLock × (ℕ → Thread)

abbrev pub set_thread : (ℕ → Thread) → ℕ → Thread → ℕ → Thread
set_thread threads i t j = if i == j then t else threads j

-- A thread calls `Unlock` only as often as it has called `Lock`.
pub data Step : System → System → Type 0 where
  call_lock :
      (i : ℕ) (l : RecursiveLock) (threads : ℕ → Thread)
      → (threads i).0 ≡ outside
      → Step (l, threads) (l, set_thread threads i (locking, (threads i).1))
  call_unlock :
      (i : ℕ) (l : RecursiveLock) (threads : ℕ → Thread)
      → (threads i).0 ≡ outside
      → 0 < (threads i).1
      → Step (l, threads) (l, set_thread threads i (unlocking, (threads i).1))
  in_lock :
      (i : ℕ) (l : RecursiveLock) (threads : ℕ → Thread)
      → Step
          (l, threads)
          ((lock_step i l (threads i)).0, set_thread threads i (lock_step i l (threads i)).1)
  in_unlock :
      (i : ℕ) (l : RecursiveLock) (threads : ℕ → Thread)
      → Step
          (l, threads)
          ((unlock_step i l (threads i)).0, set_thread threads i (unlock_step i l (threads i)).1)

abbrev pub unlocked : System
unlocked = (record { lock = none; thread_id = none; lock_count = 0 }, λ i. (outside, 0))

pub data Reachable : System → Type 0 where
  start : Reachable unlocked
  next : (s s' : System) → Reachable s → Step s s' → Reachable s'
