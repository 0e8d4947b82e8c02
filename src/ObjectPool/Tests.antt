-- ===== src/ObjectPool/Tests.antt =====
-- LFObjectPool.h at concrete calls.
use jun_core_v.Common.{if◌then◌else◌, ◌==◌, ◌+◌, ◌≡◌, ◌≤◌, List, [], ◌∷◌, ◌++◌, arith}
use jun_core_v.Common.Weights.{total}
use jun_core_v.ObjectPool.{
  Pool, Agent, Copy, copying, reading, taking, creating, holding, returning, linking, putting,
  uncounting, agent_step, alloc_step, free_step, InTime, System, act, call_alloc, Reachable, start,
  next_state,
}
use jun_core_v.ObjectPool.Shape.{Chain, occurs, made, held}
use jun_core_v.ObjectPool.Nodes.{node-once}

abbrev ran : Agent → Pool → List Agent → System
ran a p after = ((agent_step a p).0, (agent_step a p).1 ++ after)

go :
    (a : Agent) (p : Pool) (after : List Agent)
    → InTime a p
    → Reachable (p, a ∷ after)
    → Reachable (ran a p after)
go a p after in_time r = next_state _ _ r (act p [] a after in_time)

call : (p : Pool) (agents : List Agent) → Reachable (p, agents) → Reachable (p, copying ∷ agents)
call p agents r = next_state _ _ r (call_alloc p agents)

-- One node was made and given back, and two threads are about to take it.
abbrev one_free : Pool
one_free = record {
  stamp = 1;
  top = 1;
  next = λ n. if 1 == n then 0 else 0;
  next_address = 2;
  capacity = 1;
  use_count = 0;
  version = 1;
  free = 1 ∷ [];
}

abbrev copied : Copy
copied = record { stamp = 1; top = 1; version = 1 }

abbrev two_takers : List Agent
two_takers = taking copied 0 ∷ taking copied 0 ∷ []

two_takers_reached : Reachable (one_free, two_takers)
unfolding agent_step alloc_step free_step
two_takers_reached = go (reading copied) _ _ tt (
    go copying _ _ tt (
      call _ _ (
        go (reading copied) _ _ tt (
          go copying _ _ tt (
            call _ _ (
              go uncounting _ _ tt (
                go (putting 1 (record { stamp = 0; top = 0; version = 0 })) _ _ (omega arith) (
                  go (linking 1 (record { stamp = 0; top = 0; version = 0 })) _ _ tt (
                    go (returning 1) _ _ tt (
                      go (holding 1) _ _ tt
                        (go creating _ _ tt (go copying _ _ tt (call _ _ start)))))))))))))

node-once_example :
    (occurs 1 one_free.free + total (held 1) two_takers ≡ made 1 one_free.next_address)
    × (total (held 1) two_takers ≤ 1)
    × Chain one_free.next one_free.top one_free.free
node-once_example = node-once one_free two_takers 1 two_takers_reached
