-- ===== src/JobObject/Weights.antt =====
-- What the threads that are inside the functions of JobObject.cpp count for.
use jun_core_v.Common.{ℕ}
use jun_core_v.JobObject.{
  Agent, checking, linking, counting, exchanging, posting, flushing, entering, draining, running,
  claiming, ran, comparing, transferring, drained, rechecking, retrying, reposting, flushed,
  deleting,
}

-- Threads that have the right to run the object or to schedule it.
abbrev pub owner : Agent → ℕ
owner (checking job) = 0
owner (linking job) = 0
owner counting = 0
owner exchanging = 0
owner posting = 1
owner (flushing me) = 1
owner (entering me) = 1
owner (draining me old) = 1
owner (claiming me old) = 1
owner (running me old job) = 1
owner (ran me old) = 1
owner (comparing me old) = 1
owner (transferring me) = 1
owner (drained me) = 1
owner (rechecking me) = 0
owner (retrying me) = 0
owner (reposting me) = 1
owner (flushed me) = 0
owner (deleting me) = 0

-- Threads that are still going to try for that right.
abbrev pub trier : Agent → ℕ
trier exchanging = 1
trier (rechecking me) = 1
trier (retrying me) = 1
trier _ = 0

-- Threads that have linked a job but not yet counted it, and those that have counted one off but not yet
-- taken it.
abbrev pub counter : Agent → ℕ
counter counting = 1
counter (claiming me old) = 1
counter _ = 0

-- Threads that are about to run a job.
abbrev pub runner : Agent → ℕ
runner (running me old job) = 1
runner _ = 0
