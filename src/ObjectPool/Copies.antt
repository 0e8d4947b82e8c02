-- ===== src/ObjectPool/Copies.antt =====
-- What the threads inside LFObjectPool.h know, when one of them makes a step.
use jun_core_v.Common.{ℕ, ◌≡◌, ◌≢◌, ◌<◌, ◌⊎◌, inl, inr, refl, List, [], ◌∷◌, Bool-cases, arith}
use jun_core_v.ObjectPool.{
  Pool, Agent, copying, reading, taking, counting, creating, holding, returning, linking, putting,
  uncounting, unchanged, write, alloc_step, free_step, agent_step,
}
use jun_core_v.ObjectPool.Shape.{IsPool, IsPrepared, Chain, occurs, held}

abbrev pub AllPrepared : Pool → List Agent → Type 0
AllPrepared p [] = Unit {0}
AllPrepared p (a ∷ agents) = IsPrepared a p × AllPrepared p agents

-- Of the thread that makes the step.
pub agent_step-AllPrepared :
    (a : Agent) (p : Pool)
    → IsPool p
    → IsPrepared a p
    → AllPrepared (agent_step a p).0 (agent_step a p).1
unfolding agent_step alloc_step free_step
agent_step-AllPrepared copying p ok i = ground (arith, ok.stamps)
agent_step-AllPrepared (reading c) p ok i = ((i.0, i.1, inr refl), tt)
agent_step-AllPrepared (taking c after) p ok i = ground arith
agent_step-AllPrepared (counting m) p ok i = ground arith
agent_step-AllPrepared creating p ok i = ground arith
agent_step-AllPrepared (holding m) p ok i = ground arith
agent_step-AllPrepared (returning m) p ok i = ground (arith, ok.stamps)
agent_step-AllPrepared (linking m c) p ok i = ground arith
agent_step-AllPrepared (putting m c) p ok i = ground arith
agent_step-AllPrepared uncounting p ok i = ground arith

-- Of another thread, when the chain is as it was or an exchange has taken place.
later-IsPrepared :
    (p p' : Pool) (u : Agent)
    → (p.version < p'.version) ⊎ ((p.version ≡ p'.version) × (p.top ≡ p'.top))
    → ((n : ℕ) → p'.next n ≡ p.next n)
    → IsPrepared u p
    → IsPrepared u p'
later-IsPrepared p p' (reading c) l e i = ground arith
later-IsPrepared p p' (taking c after) l e i = ground (arith, e c.top)
later-IsPrepared p p' (linking m c) l e i = ground arith
later-IsPrepared p p' (putting m c) l e i = ground (arith, e m)
later-IsPrepared p p' copying l e i = tt
later-IsPrepared p p' u l e i = tt

-- Of another thread, when a node is written that neither it nor the pool has.
write-IsPrepared :
    (p : Pool) (m v : ℕ) (u : Agent)
    → held m u ≡ 0
    → (p.top ≡ 0) ⊎ (p.top ≢ m)
    → IsPrepared u p
    → IsPrepared u (record p { next = write p.next m v })
write-IsPrepared p m v (reading c) o t i = i
write-IsPrepared p m v (taking c after) o t i = ground arith
write-IsPrepared p m v (linking n c) o t i = i
write-IsPrepared p m v (putting n c) o t i = ground arith
write-IsPrepared p m v copying o t i = tt
write-IsPrepared p m v u o t i = tt

top-Free :
    (next : ℕ → ℕ) (t m : ℕ) (l : List ℕ) → occurs m l ≡ 0 → Chain next t l → (t ≡ 0) ⊎ (t ≢ m)
unfolding occurs
top-Free next t m [] o h = inl h
top-Free next t m (x ∷ xs) o h = inr (λ e. ground (arith, h.0, e))

pub agent_step-IsPrepared_other :
    (a : Agent) (p : Pool) (u : Agent)
    → IsPool p
    → ((m : ℕ) → 0 < held m a → (occurs m p.free ≡ 0) × (held m u ≡ 0))
    → IsPrepared u p
    → IsPrepared u (agent_step a p).0
unfolding agent_step alloc_step free_step
agent_step-IsPrepared_other copying p u ok o i = i
agent_step-IsPrepared_other (reading c) p u ok o i = i
agent_step-IsPrepared_other (taking c after) p u ok o i = elim (Bool-cases (unchanged c p)) [
  | inl e ↦ rw e (later-IsPrepared p _ u (inl (omega arith)) (λ n. refl) i)
  | inr e ↦ rw e i
]
agent_step-IsPrepared_other (counting m) p u ok o i =
    later-IsPrepared p _ u (inr (refl, refl)) (λ n. refl) i
agent_step-IsPrepared_other creating p u ok o i =
    later-IsPrepared p _ u (inr (refl, refl)) (λ n. refl) i
agent_step-IsPrepared_other (holding m) p u ok o i = i
agent_step-IsPrepared_other (returning m) p u ok o i = i
agent_step-IsPrepared_other (linking m c) p u ok o i =
    let (away, apart) = o m (ground arith) in
    write-IsPrepared p m c.top u apart (top-Free p.next p.top m p.free away ok.chain) i
agent_step-IsPrepared_other (putting m c) p u ok o i = elim (Bool-cases (unchanged c p)) [
  | inl e ↦ rw e (later-IsPrepared p _ u (inl (omega arith)) (λ n. refl) i)
  | inr e ↦ rw e i
]
agent_step-IsPrepared_other uncounting p u ok o i =
    later-IsPrepared p _ u (inr (refl, refl)) (λ n. refl) i
