-- ===== src/SendPath/Weights.antt =====
-- What the threads inside the send path of Session.cpp count for.
use jun_core_v.Common.{ℕ, zero, suc, List, []}
use jun_core_v.SendPath.{
  Sender, Packet, counting, exchanging, holding, lowering, rechecking, sizing, collecting,
  dequeuing, claiming, prepared, giving_up, finishing, unflagging, looking, completing, crashing,
}

-- Threads that hold the send flag. One that gives up leaves it set for good.
abbrev pub holder : Sender → ℕ
holder holding = 1
holder lowering = 1
holder sizing = 1
holder (collecting rounds packets) = 1
holder (dequeuing rounds packets) = 1
holder (claiming rounds packets) = 1
holder (prepared packets) = 1
holder giving_up = 1
holder finishing = 1
holder unflagging = 1
holder (crashing packets) = 1
holder _ = 0

-- Threads that are still going to try for the flag or to look at the count.
abbrev pub trier : Sender → ℕ
trier exchanging = 1
trier rechecking = 1
trier looking = 1
trier completing = 1
trier _ = 0

-- Threads that have linked a packet but not yet counted it, and those that have counted one off but
-- not yet taken it.
abbrev pub counter : Sender → ℕ
counter counting = 1
counter (claiming rounds packets) = 1
counter _ = 0

-- Threads that rely on a packet being in the queue.
abbrev pub relying : Sender → ℕ
relying sizing = 1
relying (collecting zero []) = 2
relying (collecting (suc rounds) []) = 1
relying (dequeuing rounds packets) = 1
relying (prepared []) = 2
relying (crashing packets) = 2
relying _ = 0

-- The packets that a thread has taken off the queue and not yet given to `WSASend`.
abbrev pub taken : Sender → List Packet
taken (collecting rounds packets) = packets
taken (dequeuing rounds packets) = packets
taken (claiming rounds packets) = packets
taken (prepared packets) = packets
taken (crashing packets) = packets
taken _ = []
