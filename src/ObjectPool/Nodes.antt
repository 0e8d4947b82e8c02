-- ===== src/ObjectPool/Nodes.antt =====
-- Where the nodes of the pool of LFObjectPool.h are.
use jun_core_v.Common.{
  ℕ, ◌+◌, ◌≡◌, ◌<◌, ◌≤◌, refl, sym, ap, subst, ◌⊎◌, inl, inr, Bool-cases, List, [], ◌∷◌, ◌++◌,
  arith,
}
use jun_core_v.Common.Weights.{total, total_at, total_around}
use jun_core_v.ObjectPool.{
  Pool, Agent, Copy, copying, taking, counting, unchanged, tail, alloc_step, agent_step, InTime,
  System, Step, act, call_alloc, Reachable, start, next_state,
}
use jun_core_v.ObjectPool.Shape.{
  unchanged-IsCopy, Chain-tail, IsPool, Chain, occurs, made, held, agent_step_counts,
  agent_step-IsPool,
}
use jun_core_v.ObjectPool.Copies.{AllPrepared, agent_step-AllPrepared, agent_step-IsPrepared_other}

record Inventory (s : System) : Type 0 where
  pool : IsPool s.0
  copies : AllPrepared s.0 s.1
  nodes : (n : ℕ) → occurs n s.0.free + total (held n) s.1 ≡ made n s.0.next_address

AllPrepared-append :
    (p : Pool) (l l' : List Agent) → AllPrepared p l → AllPrepared p l' → AllPrepared p (l ++ l')
AllPrepared-append p [] l' h h' = h'
AllPrepared-append p (a ∷ l) l' h h' = (h.0, AllPrepared-append p l l' h.1 h')

AllPrepared-split :
    (p : Pool) (l l' : List Agent) → AllPrepared p (l ++ l') → AllPrepared p l × AllPrepared p l'
AllPrepared-split p [] l' h = (tt, h)
AllPrepared-split p (a ∷ l) l' h =
    let (before, after) = AllPrepared-split p l l' h.1 in ((h.0, before), after)

-- The threads that do not make the step, none of which has its node.
others-AllPrepared :
    (a : Agent) (p : Pool) (l : List Agent)
    → IsPool p
    → ((m : ℕ) → 0 < held m a → (occurs m p.free ≡ 0) × (total (held m) l ≡ 0))
    → AllPrepared p l
    → AllPrepared (agent_step a p).0 l
unfolding total
others-AllPrepared a p [] ok o h = tt
others-AllPrepared a p (u ∷ l) ok o h = (
  agent_step-IsPrepared_other a p u ok (λ m has. ((o m has).0, omega (arith, (o m has).1))) h.0,
  others-AllPrepared a p l ok (λ m has. ((o m has).0, omega (arith, (o m has).1))) h.1,
)

made-le : (n limit : ℕ) → made n limit ≤ 1
made-le n limit = ground arith

made_pos : (n limit : ℕ) → 0 < made n limit → 0 < n
made_pos n limit h = ground arith

module _ (p : Pool) (before : List Agent) (a : Agent) (after : List Agent)
    (inventory : Inventory (p, before ++ (a ∷ after))) (in_time : InTime a p) where
  -- The node of the thread that makes the step is nowhere else.
  alone :
      (m : ℕ)
      → 0 < held m a
      → (occurs m p.free ≡ 0) × (total (held m) before ≡ 0) × (total (held m) after ≡ 0) × (0 < m)
  alone m has =
      let count = inventory.nodes m in
      let split = total_at (held m) before a after in
      let bound = made-le m p.next_address in
      (omega arith, omega arith, omega arith, made_pos m p.next_address (omega arith))

  act-Inventory : Inventory ((agent_step a p).0, (before ++ (agent_step a p).1) ++ after)
  act-Inventory =
      let (first, rest) = AllPrepared-split p before (a ∷ after) inventory.copies in
      record {
        pool =
            agent_step-IsPool p inventory.pool a rest.0 in_time
              (λ m has. ((alone m has).0, (alone m has).3));
        copies =
            AllPrepared-append (agent_step a p).0 (before ++ (agent_step a p).1) after
              (AllPrepared-append (agent_step a p).0 before (agent_step a p).1
                (others-AllPrepared a p before inventory.pool
                  (λ m has. ((alone m has).0, (alone m has).1)) first)
                (agent_step-AllPrepared a p inventory.pool rest.0))
              (others-AllPrepared a p after inventory.pool
                (λ m has. ((alone m has).0, (alone m has).2)) rest.1);
        nodes = λ n.
            let split = total_at (held n) before a after in
            let split' = total_around (held n) before (agent_step a p).1 after in
            let count = inventory.nodes n in
            omega (
              arith,
              agent_step_counts p inventory.pool a n (total (held n) before + total (held n) after)
                  rest.0 in_time (omega arith),
            );
      }

Step-Inventory : {s s' : System} → Step s s' → Inventory s → Inventory s'
unfolding total
Step-Inventory (act p before a after in_time) v = act-Inventory p before a after v in_time
Step-Inventory (call_alloc p agents) v = record {
  pool = v.pool;
  copies = (tt, v.copies);
  nodes = λ n. omega (arith, v.nodes n);
}

Reachable-Inventory : (s : System) → Reachable s → Inventory s
unfolding total occurs
Reachable-Inventory _ start = record {
  pool = record { chain = refl; stamps = refl; addresses = omega arith };
  copies = tt;
  nodes = λ n. ground arith;
}
Reachable-Inventory s' (next_state s _ r st) = Step-Inventory st (Reachable-Inventory s r)

-- However calls of `Alloc` and `Free` overlap, as long as every exchange is tried before 2¹⁷ others
-- have succeeded since its copy of the top, and callers free what they were given and only once:
-- every node that was ever made is once in the pool or once with a thread, so that no two threads
-- have the same one, and the chain of `next` fields from the top goes through the nodes of the pool.
pub node-once :
    (p : Pool) (agents : List Agent) (n : ℕ)
    → Reachable (p, agents)
    → (occurs n p.free + total (held n) agents ≡ made n p.next_address)
      × (total (held n) agents ≤ 1)
      × Chain p.next p.top p.free
node-once p agents n r =
    let v = Reachable-Inventory (p, agents) r in
    (v.nodes n, omega (arith, v.nodes n, made-le n p.next_address), v.pool.chain)

first-tail : (next : ℕ → ℕ) (t : ℕ) (l : List ℕ) → 0 < t → Chain next t l → l ≡ t ∷ tail l
first-tail next t [] pos h = absurd (omega arith)
first-tail next t (x ∷ xs) pos h = ap (λ k. k ∷ xs) (sym h.0)

-- Under the same conditions, the exchange of `Alloc` either finds a change, and starts again with the
-- pool as it was, or takes the first node off the list of the pool, and the rest of the list is what
-- the `next` field that was read beforehand begins.
pub alloc-takes_first :
    (p : Pool) (before after : List Agent) (c : Copy) (read_next : ℕ)
    → Reachable (p, before ++ (taking c read_next ∷ after))
    → InTime (taking c read_next) p
    → (agent_step (taking c read_next) p ≡ (p, copying ∷ []))
      ⊎ ((p.free ≡ c.top ∷ (agent_step (taking c read_next) p).0.free)
          × ((agent_step (taking c read_next) p).1 ≡ counting c.top ∷ [])
          × Chain p.next read_next (agent_step (taking c read_next) p).0.free)
unfolding agent_step alloc_step
alloc-takes_first p before after c read_next r in_time =
    let v = Reachable-Inventory (p, before ++ (taking c read_next ∷ after)) r in
    let i = (AllPrepared-split p before (taking c read_next ∷ after) v.copies).1.0 in
    elim (Bool-cases (unchanged c p)) [
      | inl e ↦
          let (now, same) = unchanged-IsCopy c p v.pool i.0 in_time e in
          let next_top : p.next c.top ≡ read_next = ground (arith, i.2) in
          let chain : Chain p.next c.top p.free =
            subst (λ k. Chain p.next k p.free) (sym same) v.pool.chain in
          inr (
            rw e (first-tail p.next c.top p.free i.1 chain),
            rw e refl,
            rw e (
                subst (λ k. Chain p.next k (tail p.free)) next_top
                  (Chain-tail p.next c.top p.free i.1 chain)),
          )
      | inr e ↦ inl (rw e refl)
    ]
