-- ===== src/RecursiveLock/Exclusion.antt =====
-- Who holds the lock of JunCommon/synchronization/RecursiveLock.cpp.
use jun_core_v.Common.{
  ℕ, ◌≡◌, ◌≢◌, ◌<◌, ◌⊎◌, inl, inr, true, false, Option, none, some, dec_lt, arith,
}
use jun_core_v.RecursiveLock.Soundness.{IsAt, Reachable-Sound}
use jun_core_v.RecursiveLock.{RecursiveLock, Thread, is_own, outside, locking, acquiring, Reachable}

depth_holds :
    (i : ℕ) (l : RecursiveLock) (t : Thread) → IsAt i l t → 0 < t.1 → is_own i l.lock ≡ true
depth_holds i l (outside, depth) h pos = ground arith
depth_holds i l (locking, depth) h pos = ground arith
depth_holds i l (acquiring, depth) h pos = ground arith
depth_holds i l (place, depth) h pos = ground arith

own_eq : (i j : ℕ) (holder : Option ℕ) → is_own i holder ≡ true → is_own j holder ≡ true → i ≡ j
own_eq i j none e e' = cc
own_eq i j (some h) e e' = ground arith

-- However calls of `Lock` and `Unlock` overlap, as long as no thread unlocks more often than it has
-- locked: while one thread has locked and not
-- unlocked, no other one has.
pub lock-exclusive :
    (l : RecursiveLock) (threads : ℕ → Thread) (i j : ℕ)
    → Reachable (l, threads)
    → i ≢ j
    → 0 < (threads i).1
    → (threads j).1 ≡ 0
lock-exclusive l threads i j r apart a =
    let h = Reachable-Sound (l, threads) r in
    elim (dec_lt 0 (threads j).1) [
      | yes b ↦ absurd (
          apart (
            own_eq i j l.lock (depth_holds i l (threads i) (h.each i) a)
              (depth_holds j l (threads j) (h.each j) b)))
      | no b ↦ omega arith
    ]

own_some : (i : ℕ) (holder : Option ℕ) → is_own i holder ≡ true → holder ≡ some i
own_some i none e = cc
own_some i (some h) e = ground arith

not_own_some : (i : ℕ) (holder : Option ℕ) → is_own i holder ≡ false → holder ≢ some i
not_own_some i none e = λ p. cc
not_own_some i (some h) e = λ p. ground arith

outside_cases :
    (i : ℕ) (l : RecursiveLock) (t : Thread)
    → IsAt i l t
    → t.0 ≡ outside
    → ((t.1 ≡ 0) × (is_own i l.lock ≡ false))
      ⊎ ((0 < t.1) × (is_own i l.lock ≡ true) × (l.thread_id ≡ some i) × (l.lock_count ≡ t.1))
outside_cases i l (outside, depth) h e = ground arith
outside_cases i l (place, depth) h e = ground arith

-- A thread that is outside the calls holds the system's lock exactly as long as it has locked more
-- often than it has unlocked, and then the lock names it and counts how often: the last `Unlock`
-- releases the lock, and no other one does.
pub lock_count-depth :
    (l : RecursiveLock) (threads : ℕ → Thread) (i : ℕ)
    → Reachable (l, threads)
    → (threads i).0 ≡ outside
    → (((threads i).1 ≡ 0) × (l.lock ≢ some i))
      ⊎ ((0 < (threads i).1)
          × (l.lock ≡ some i)
          × (l.thread_id ≡ some i)
          × (l.lock_count ≡ (threads i).1))
lock_count-depth l threads i r out =
    elim (outside_cases i l (threads i) ((Reachable-Sound (l, threads) r).each i) out) [
      | inl p ↦ inl (p.0, not_own_some i l.lock p.1)
      | inr p ↦ inr (p.0, own_some i l.lock p.1, p.2, p.3)
    ]
