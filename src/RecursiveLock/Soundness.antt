-- ===== src/RecursiveLock/Soundness.antt =====
-- What stays true of the lock and the threads of JunCommon/synchronization/RecursiveLock.cpp.
use jun_core_v.Common.{
  ℕ, suc, ◌-◌, ◌≡◌, ◌≢◌, ◌<◌, ◌⊎◌, inl, inr, refl, sym, subst, Bool, true, false, ◌==◌, Option,
  none, some, Bool-cases, arith,
}
use jun_core_v.RecursiveLock.{
  RecursiveLock, Thread, is_own, acquire, outside, locking, acquiring, counting_again, counting,
  naming, unlocking, uncounting_again, unnaming, uncounting, releasing, lock_step, unlock_step,
  System, set_thread, Step, call_lock, call_unlock, in_lock, in_unlock, Reachable, start, next,
}

-- A thread that is not in the system's lock.
abbrev pub IsOut : Thread → Type 0
IsOut (outside, depth) = depth ≡ 0
IsOut (locking, depth) = depth ≡ 0
IsOut (acquiring, depth) = depth ≡ 0
IsOut _ = ⊥

-- A thread that is in it.
abbrev pub IsIn : ℕ → RecursiveLock → Thread → Type 0
IsIn i l (acquiring, depth) = ⊥
IsIn i l (counting, depth) = (depth ≡ 0) × (l.thread_id ≡ none) × (l.lock_count ≡ 0)
IsIn i l (naming, depth) = (depth ≡ 0) × (l.thread_id ≡ none) × (l.lock_count ≡ 1)
IsIn i l (uncounting_again, depth) = (1 < depth) × (l.thread_id ≡ some i) × (l.lock_count ≡ depth)
IsIn i l (unnaming, depth) = (depth ≡ 1) × (l.thread_id ≡ some i) × (l.lock_count ≡ 1)
IsIn i l (uncounting, depth) = (depth ≡ 1) × (l.thread_id ≡ none) × (l.lock_count ≡ 1)
IsIn i l (releasing, depth) = (depth ≡ 1) × (l.thread_id ≡ none) × (l.lock_count ≡ 0)
IsIn i l (_, depth) = (0 < depth) × (l.thread_id ≡ some i) × (l.lock_count ≡ depth)

abbrev pub IsInIf : Bool → ℕ → RecursiveLock → Thread → Type 0
IsInIf true i l t = IsIn i l t
IsInIf false i l t = IsOut t

abbrev pub IsAt : ℕ → RecursiveLock → Thread → Type 0
IsAt i l t = IsInIf (is_own i l.lock) i l t

abbrev pub IsTidy : Option ℕ → RecursiveLock → Type 0
IsTidy none l = (l.thread_id ≡ none) × (l.lock_count ≡ 0)
IsTidy (some h) l = (l.thread_id ≡ none) ⊎ (l.thread_id ≡ some h)

not_own : (i j : ℕ) (holder : Option ℕ) → i ≢ j → is_own i holder ≡ true → is_own j holder ≡ false
not_own i j none n e = refl
not_own i j (some h) n e = ground arith

IsAt-IsOut :
    (j : ℕ) (l : RecursiveLock) (u : Thread) → is_own j l.lock ≡ false → IsAt j l u → IsOut u
IsAt-IsOut j l u e h = subst (λ b. IsInIf b j l u) e h

IsOut-IsAt :
    (j : ℕ) (l : RecursiveLock) (u : Thread) → is_own j l.lock ≡ false → IsOut u → IsAt j l u
IsOut-IsAt j l u e h = subst (λ b. IsInIf b j l u) (sym e) h

-- What stays true of the lock and a thread when that thread makes a step, and of any other thread.
module _ (i : ℕ) (l : RecursiveLock) where
  lock_step-IsAt :
      (t : Thread)
      → IsAt i l t
      → IsTidy l.lock l
      → IsAt i (lock_step i l t).0 (lock_step i l t).1
        × IsTidy (lock_step i l t).0.lock (lock_step i l t).0
  unfolding lock_step
  lock_step-IsAt (outside, depth) h f = (h, f)
  lock_step-IsAt (locking, depth) h f = ground arith
  lock_step-IsAt (acquiring, depth) h f = ground arith
  lock_step-IsAt (counting_again, depth) h f = ground arith
  lock_step-IsAt (counting, depth) h f = ground arith
  lock_step-IsAt (naming, depth) h f = ground arith
  lock_step-IsAt (t, depth) h f = (h, f)

  unlock_step-IsAt :
      (t : Thread)
      → IsAt i l t
      → IsTidy l.lock l
      → IsAt i (unlock_step i l t).0 (unlock_step i l t).1
        × IsTidy (unlock_step i l t).0.lock (unlock_step i l t).0
  unfolding unlock_step
  unlock_step-IsAt (unlocking, depth) h f = ground arith
  unlock_step-IsAt (uncounting_again, depth) h f = ground arith
  unlock_step-IsAt (unnaming, depth) h f = ground arith
  unlock_step-IsAt (uncounting, depth) h f = ground arith
  unlock_step-IsAt (releasing, depth) h f = ground arith
  unlock_step-IsAt (outside, depth) h f = (h, f)
  unlock_step-IsAt (t, depth) h f = (h, f)

  module _ (j : ℕ) (apart : i ≢ j) (u : Thread) (other : IsAt j l u) where
    -- The thread that makes the step holds the lock, and changes what is not the lock, or frees it.
    held :
        (l' : RecursiveLock)
        → is_own i l.lock ≡ true
        → (l'.lock ≡ l.lock) ⊎ (l'.lock ≡ none)
        → IsAt j l' u
    held l' e same =
        let away : is_own j l.lock ≡ false = not_own i j l.lock apart e in
        let away' : is_own j l'.lock ≡ false = ground arith in
        IsOut-IsAt j l' u away' (IsAt-IsOut j l u away other)

    acquire-IsAt_other :
        (holder : Option ℕ) (depth : ℕ) → l.lock ≡ holder → IsAt j (acquire i depth holder l).0 u
    acquire-IsAt_other none depth e =
        IsOut-IsAt j (record l { lock = some i }) u (ground arith)
          (IsAt-IsOut j l u (rw e refl) other)
    acquire-IsAt_other (some h) depth e = other

    lock_step-IsAt_other : (t : Thread) → IsAt i l t → IsAt j (lock_step i l t).0 u
    unfolding lock_step
    lock_step-IsAt_other (outside, depth) h = other
    lock_step-IsAt_other (acquiring, depth) h = acquire-IsAt_other l.lock depth refl
    lock_step-IsAt_other (counting, depth) h =
        held (record l { lock_count = suc l.lock_count }) (ground arith) (inl refl)
    lock_step-IsAt_other (counting_again, depth) h =
        held (record l { lock_count = suc l.lock_count }) (ground arith) (inl refl)
    lock_step-IsAt_other (naming, depth) h =
        held (record l { thread_id = some i }) (ground arith) (inl refl)
    lock_step-IsAt_other (t, depth) h = other

    unlock_step-IsAt_other : (t : Thread) → IsAt i l t → IsAt j (unlock_step i l t).0 u
    unfolding unlock_step
    unlock_step-IsAt_other (unlocking, depth) h = other
    unlock_step-IsAt_other (uncounting_again, depth) h =
        held (record l { lock_count = l.lock_count - 1 }) (ground arith) (inl refl)
    unlock_step-IsAt_other (unnaming, depth) h =
        held (record l { thread_id = none }) (ground arith) (inl refl)
    unlock_step-IsAt_other (uncounting, depth) h =
        held (record l { lock_count = l.lock_count - 1 }) (ground arith) (inl refl)
    unlock_step-IsAt_other (releasing, depth) h =
        held (record l { lock = none }) (ground arith) (inr refl)
    unlock_step-IsAt_other (outside, depth) h = other
    unlock_step-IsAt_other (t, depth) h = other

pub record Sound (s : System) : Type 0 where
  pub each : (i : ℕ) → IsAt i s.0 (s.1 i)
  pub tidy : IsTidy s.0.lock s.0

module _ (i : ℕ) (l l' : RecursiveLock) (threads : ℕ → Thread) (t : Thread) where
  set_thread-Sound :
      IsAt i l' t
      → ((j : ℕ) → i ≢ j → IsAt j l' (threads j))
      → IsTidy l'.lock l'
      → Sound (l', set_thread threads i t)
  set_thread-Sound mine others tidy = record {
    each = λ j. elim (Bool-cases (i == j)) [
      | inl e ↦ let same : i ≡ j = ground arith in rw e (subst (λ k. IsAt k l' t) same mine)
      | inr e ↦ rw e (others j (ground (arith, e)))
    ];
    tidy = tidy;
  }

call_lock-IsAt :
    (i : ℕ) (l : RecursiveLock) (t : Thread) → t.0 ≡ outside → IsAt i l t → IsAt i l (locking, t.1)
call_lock-IsAt i l (outside, depth) e h = ground arith
call_lock-IsAt i l (place, depth) e h = ground arith

call_unlock-IsAt :
    (i : ℕ) (l : RecursiveLock) (t : Thread)
    → t.0 ≡ outside
    → 0 < t.1
    → IsAt i l t
    → IsAt i l (unlocking, t.1)
call_unlock-IsAt i l (outside, depth) e pos h = ground arith
call_unlock-IsAt i l (place, depth) e pos h = ground arith

Step-Sound : {s s' : System} → Step s s' → Sound s → Sound s'
Step-Sound (call_lock i l threads e) h =
    set_thread-Sound i l l threads (locking, (threads i).1)
      (call_lock-IsAt i l (threads i) e (h.each i)) (λ j n. h.each j) h.tidy
Step-Sound (call_unlock i l threads e pos) h =
    set_thread-Sound i l l threads (unlocking, (threads i).1)
      (call_unlock-IsAt i l (threads i) e pos (h.each i)) (λ j n. h.each j) h.tidy
Step-Sound (in_lock i l threads) h =
    let (mine, tidy) = lock_step-IsAt i l (threads i) (h.each i) h.tidy in
    set_thread-Sound i l (lock_step i l (threads i)).0 threads (lock_step i l (threads i)).1 mine
      (λ j n. lock_step-IsAt_other i l j n (threads j) (h.each j) (threads i) (h.each i)) tidy
Step-Sound (in_unlock i l threads) h =
    let (mine, tidy) = unlock_step-IsAt i l (threads i) (h.each i) h.tidy in
    set_thread-Sound i l (unlock_step i l (threads i)).0 threads (unlock_step i l (threads i)).1
      mine (λ j n. unlock_step-IsAt_other i l j n (threads j) (h.each j) (threads i) (h.each i))
      tidy

pub Reachable-Sound : (s : System) → Reachable s → Sound s
Reachable-Sound _ start = record { each = λ i. refl; tidy = (refl, refl) }
Reachable-Sound s' (next s _ r st) = Step-Sound st (Reachable-Sound s r)
