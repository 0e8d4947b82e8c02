-- ===== src/ObjectPool.antt =====
-- JunCommon/pool/LFObjectPool.h with the stamps of JunCommon/core/base.h: nodes that any thread takes
-- and gives back without a lock. `top_stamp_` is the pair of its upper 17 bits and the address in the
-- others; that an address fits there is what the constructor checks. Every thread that is inside
-- `Alloc` or `Free`, or holds a node between them, is an `Agent`, and its step makes one access to
-- shared memory. The addresses that `new` returns are numbered in their order, from 1.
pub mod Shape
pub mod Copies
pub mod Nodes
mod Tests
use jun_core_v.Common.{
  ℕ, zero, suc, ◌+◌, ◌-◌, ◌%◌, ◌^◌, ◌≡◌, ◌<◌, List, [], ◌∷◌, ◌++◌, Bool, true, false, ◌&&◌, ◌==◌,
  if◌then◌else◌,
}

-- `next` holds the field of every node. Beyond the members, `version` counts the exchanges that
-- succeeded, and `free` lists the nodes of the pool.
pub record Pool : Type 0 where
  pub stamp : ℕ
  pub top : ℕ
  pub next : ℕ → ℕ
  pub next_address : ℕ
  pub capacity : ℕ
  pub use_count : ℕ
  pub version : ℕ
  pub free : List ℕ

-- What a thread has copied of `top_stamp_`, and the version at that time.
pub record Copy : Type 0 where
  pub stamp : ℕ
  pub top : ℕ
  pub version : ℕ

pub data Agent : Type 0 where
  -- `Alloc`: the copy, the field of the top, the exchange with what that field was, the count, `new`
  copying : Agent
  reading : Copy → Agent
  taking : Copy → ℕ → Agent
  counting : ℕ → Agent
  creating : Agent
  -- a node that the caller has
  holding : ℕ → Agent
  -- `Free`: the copy, the field of the node, the exchange, the count
  returning : ℕ → Agent
  linking : ℕ → Copy → Agent
  putting : ℕ → Copy → Agent
  uncounting : Agent

-- `kStampCount` and `kStampMask`: the next of 2¹⁷ stamps.
abbrev pub next_stamp : ℕ → ℕ
next_stamp stamp = (stamp + 1) % 2 ^ 17

abbrev pub copy_of : Pool → Copy
copy_of p = record { stamp = p.stamp; top = p.top; version = p.version }

-- Whether the compare and exchange finds what was copied.
abbrev pub unchanged : Copy → Pool → Bool
unchanged c p = (c.stamp == p.stamp) && (c.top == p.top)

abbrev pub write : (ℕ → ℕ) → ℕ → ℕ → ℕ → ℕ
write next node value n = if node == n then value else next n

abbrev pub tail : List ℕ → List ℕ
tail [] = []
tail (x ∷ xs) = xs

unfoldable pub alloc_step : Agent → Pool → Pool × List Agent
alloc_step copying p = (p, (if p.top == 0 then creating else reading (copy_of p)) ∷ [])
alloc_step (reading c) p = (p, taking c (p.next c.top) ∷ [])
alloc_step (taking c after) p =
    if unchanged c p
    then (
      record p {
        stamp = next_stamp c.stamp;
        top = after;
        version = suc p.version;
        free = tail p.free;
      },
      counting c.top ∷ [],
    )
    else (p, copying ∷ [])
alloc_step (counting node) p = (record p { use_count = suc p.use_count }, holding node ∷ [])
alloc_step creating p = (
  record p {
    capacity = suc p.capacity;
    use_count = suc p.use_count;
    next_address = suc p.next_address;
  },
  holding p.next_address ∷ [],
)
alloc_step other p = (p, other ∷ [])

unfoldable pub free_step : Agent → Pool → Pool × List Agent
free_step (holding node) p = (p, returning node ∷ [])
free_step (returning node) p = (p, linking node (copy_of p) ∷ [])
free_step (linking node c) p = (record p { next = write p.next node c.top }, putting node c ∷ [])
free_step (putting node c) p =
    if unchanged c p
    then (
      record p {
        stamp = next_stamp c.stamp;
        top = node;
        version = suc p.version;
        free = node ∷ p.free;
      },
      uncounting ∷ [],
    )
    else (p, returning node ∷ [])
free_step uncounting p = (record p { use_count = p.use_count - 1 }, [])
free_step other p = (p, other ∷ [])

unfoldable pub agent_step : Agent → Pool → Pool × List Agent
agent_step copying p = alloc_step copying p
agent_step (reading c) p = alloc_step (reading c) p
agent_step (taking c after) p = alloc_step (taking c after) p
agent_step (counting node) p = alloc_step (counting node) p
agent_step creating p = alloc_step creating p
agent_step other p = free_step other p

-- A thread exchanges before 2¹⁷ exchanges of others have gone by since its copy.
abbrev pub InTime : Agent → Pool → Type 0
InTime (taking c after) p = p.version < c.version + 2 ^ 17
InTime (putting node c) p = p.version < c.version + 2 ^ 17
InTime _ p = Unit {0}

abbrev pub System : Type 0
System = Pool × List Agent

abbrev pub empty_pool : Pool
empty_pool = record {
  stamp = 0;
  top = 0;
  next = λ n. 0;
  next_address = 1;
  capacity = 0;
  use_count = 0;
  version = 0;
  free = [];
}

pub data Step : System → System → Type 0 where
  act :
      (p : Pool) (before : List Agent) (agent : Agent) (after : List Agent)
      → InTime agent p
      → Step
          (p, before ++ (agent ∷ after))
          ((agent_step agent p).0, (before ++ (agent_step agent p).1) ++ after)
  call_alloc : (p : Pool) (agents : List Agent) → Step (p, agents) (p, copying ∷ agents)

pub data Reachable : System → Type 0 where
  start : Reachable (empty_pool, [])
  next_state : (s s' : System) → Reachable s → Step s s' → Reachable s'
