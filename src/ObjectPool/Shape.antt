-- ===== src/ObjectPool/Shape.antt =====
-- What stays true of the pool of LFObjectPool.h and of one thread's copy.
use jun_core_v.Common.{
  ℕ, ◌+◌, ◌%◌, ◌^◌, ◌≡◌, ◌<◌, ◌⊎◌, inl, inr, refl, sym, subst, ◌∙◌, List, [], ◌∷◌, true, ◌==◌, ltb,
  if◌then◌else◌, Bool-cases, arith,
}
use jun_core_v.Common.Weights.{total}
use jun_core_v.ObjectPool.{
  Pool, Copy, Agent, copying, reading, taking, counting, creating, holding, returning, linking,
  putting, uncounting, unchanged, write, tail, alloc_step, free_step, agent_step, InTime,
}

-- The nodes that a chain of `next` fields goes through.
abbrev pub Chain : (ℕ → ℕ) → ℕ → List ℕ → Type 0
Chain next t [] = t ≡ 0
Chain next t (x ∷ xs) = (t ≡ x) × (0 < x) × Chain next (next x) xs

unfoldable pub occurs : ℕ → List ℕ → ℕ
occurs n [] = 0
occurs n (x ∷ xs) = (if x == n then 1 else 0) + occurs n xs

-- The nodes that `new` has made.
abbrev pub made : ℕ → ℕ → ℕ
made n next_address = if ltb 0 n then if ltb n next_address then 1 else 0 else 0

abbrev pub held : ℕ → Agent → ℕ
held n (counting m) = if m == n then 1 else 0
held n (holding m) = if m == n then 1 else 0
held n (returning m) = if m == n then 1 else 0
held n (linking m c) = if m == n then 1 else 0
held n (putting m c) = if m == n then 1 else 0
held n _ = 0

-- A copy is of the present, or of the past.
abbrev pub IsCopy : Copy → Pool → Type 0
IsCopy c p =
    (c.stamp ≡ c.version % 2 ^ 17)
    × ((c.version < p.version) ⊎ ((c.version ≡ p.version) × (c.top ≡ p.top)))

abbrev pub IsPrepared : Agent → Pool → Type 0
IsPrepared (reading c) p = IsCopy c p × (0 < c.top)
IsPrepared (taking c after) p =
    IsCopy c p × (0 < c.top) × ((c.version < p.version) ⊎ (p.next c.top ≡ after))
IsPrepared (linking n c) p = IsCopy c p
IsPrepared (putting n c) p = IsCopy c p × (p.next n ≡ c.top)
IsPrepared _ p = Unit {0}

pub record IsPool (p : Pool) : Type 0 where
  pub chain : Chain p.next p.top p.free
  pub stamps : p.stamp ≡ p.version % 2 ^ 17
  pub addresses : 0 < p.next_address

-- A write to a node outside the chain.
Chain-write :
    (next : ℕ → ℕ) (m v t : ℕ) (l : List ℕ)
    → occurs m l ≡ 0
    → Chain next t l
    → Chain (write next m v) t l
unfolding occurs
Chain-write next m v t [] o h = h
Chain-write next m v t (x ∷ xs) o h =
    let other : write next m v x ≡ next x = ground (arith, o) in
    (
      h.0,
      h.1,
      subst (λ k. Chain (write next m v) k xs) (sym other)
          (Chain-write next m v (next x) xs (ground (arith, o)) h.2),
    )

-- What the top of a chain is for.
pub Chain-tail :
    (next : ℕ → ℕ) (t : ℕ) (l : List ℕ) → 0 < t → Chain next t l → Chain next (next t) (tail l)
Chain-tail next t [] pos h = absurd (omega arith)
Chain-tail next t (x ∷ xs) pos h = subst (λ k. Chain next (next k) xs) (sym h.0) h.2

occurs-tail :
    (next : ℕ → ℕ) (t n : ℕ) (l : List ℕ)
    → 0 < t
    → Chain next t l
    → occurs n l ≡ (if t == n then 1 else 0) + occurs n (tail l)
unfolding occurs
occurs-tail next t n [] pos h = absurd (omega arith)
occurs-tail next t n (x ∷ xs) pos h = ground (arith, h.0)

-- An exchange in time succeeds only when nothing has changed.
pub unchanged-IsCopy :
    (c : Copy) (p : Pool)
    → IsPool p
    → IsCopy c p
    → p.version < c.version + 2 ^ 17
    → unchanged c p ≡ true
    → (c.version ≡ p.version) × (c.top ≡ p.top)
unchanged-IsCopy c p ok copied time same = ground (arith, ok.stamps)

module _ (p : Pool) (ok : IsPool p) where
  -- The count of a node, when one thread makes a step.
  pub agent_step_counts :
      (a : Agent) (n others : ℕ)
      → IsPrepared a p
      → InTime a p
      → occurs n p.free + (others + held n a) ≡ made n p.next_address
      → occurs n (agent_step a p).0.free + (others + total (held n) (agent_step a p).1)
        ≡ made n (agent_step a p).0.next_address
  unfolding agent_step alloc_step free_step total occurs
  agent_step_counts copying n others i t h = ground arith
  agent_step_counts (reading c) n others i t h = ground arith
  agent_step_counts (taking c after) n others i t h =
      ground (arith, unchanged-IsCopy c p ok i.0 t, occurs-tail p.next p.top n p.free)
  agent_step_counts (counting m) n others i t h = ground arith
  agent_step_counts creating n others i t h = ground (arith, ok.addresses)
  agent_step_counts (holding m) n others i t h = ground arith
  agent_step_counts (returning m) n others i t h = ground arith
  agent_step_counts (linking m c) n others i t h = ground arith
  agent_step_counts (putting m c) n others i t h = ground arith
  agent_step_counts uncounting n others i t h = ground arith

  pub agent_step-IsPool :
      (a : Agent)
      → IsPrepared a p
      → InTime a p
      → ((m : ℕ) → 0 < held m a → (occurs m p.free ≡ 0) × (0 < m))
      → IsPool (agent_step a p).0
  unfolding agent_step alloc_step free_step occurs
  agent_step-IsPool copying i t o = ok
  agent_step-IsPool (reading c) i t o = ok
  agent_step-IsPool (taking c after) i t o = elim (Bool-cases (unchanged c p)) [
    | inl e ↦
        let (now, same) = unchanged-IsCopy c p ok i.0 t e in
        let after_top : p.next p.top ≡ after = ground (arith, i.2) in
        rw e (record {
          chain =
              subst (λ k. Chain p.next k (tail p.free)) after_top
                (Chain-tail p.next p.top p.free (omega (arith, i.1)) ok.chain);
          stamps = ground (arith, i.0);
          addresses = ok.addresses;
        })
    | inr e ↦ rw e ok
  ]
  agent_step-IsPool (counting m) i t o = record {
    chain = ok.chain;
    stamps = ok.stamps;
    addresses = ok.addresses;
  }
  agent_step-IsPool creating i t o = record {
    chain = ok.chain;
    stamps = ok.stamps;
    addresses = omega arith;
  }
  agent_step-IsPool (holding m) i t o = ok
  agent_step-IsPool (returning m) i t o = ok
  agent_step-IsPool (linking m c) i t o = record {
    chain = Chain-write p.next m c.top p.top p.free (o m (ground arith)).0 ok.chain;
    stamps = ok.stamps;
    addresses = ok.addresses;
  }
  agent_step-IsPool (putting m c) i t o = elim (Bool-cases (unchanged c p)) [
    | inl e ↦
        let (now, same) = unchanged-IsCopy c p ok i.0 t e in
        rw e (record {
          chain = (
            refl,
            (o m (ground arith)).1,
            subst (λ k. Chain p.next k p.free) (sym same ∙ sym i.1) ok.chain,
          );
          stamps = ground (arith, i.0);
          addresses = ok.addresses;
        })
    | inr e ↦ rw e ok
  ]
  agent_step-IsPool uncounting i t o = record {
    chain = ok.chain;
    stamps = ok.stamps;
    addresses = ok.addresses;
  }
