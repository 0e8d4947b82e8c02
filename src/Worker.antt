-- ===== src/Worker.antt =====
-- The worker threads of JunCore/network/IOCPManager.h and IOCPManager.cpp: `RunWorkerThread` without
-- the handlers that it calls, and `Shutdown`. The completion port is a queue of messages, which the
-- system hands out in their order; the workers handle them at the same time, and come to the ends of
-- their rounds in any order.
pub mod Shutdown
pub mod Deletion
mod Tests
use jun_core_v.Common.{
  ℕ, zero, suc, ◌+◌, ◌-◌, ◌≡◌, List, [], ◌∷◌, ◌++◌, Bool, true, false, not, ◌==◌, ◌&&◌, ltb,
  if◌then◌else◌, Option, none, some, set, length, replicate,
}
use jun_core_v.Session.{IoOperation, io_recv, io_send, io_accept, io_connect, io_disconnect}

-- The `OverlappedEx` of one operation; `id` tells them apart.
pub record Overlapped : Type 0 where
  pub id : ℕ
  pub operation : IoOperation

-- What `GetQueuedCompletionStatus` returns: the number of bytes and the operation's structure.
pub record Message : Type 0 where
  pub io_size : ℕ
  pub overlapped : Option Overlapped

-- `PostQueuedCompletionStatus(iocpHandle, 0, 0, 0)`
abbrev pub shutdown_message : Message
shutdown_message = record { io_size = 0; overlapped = none }

-- What a worker does with a message: it ends, follows a null pointer, or comes to
-- `DecrementIOCount` by one of the handlers or by none.
pub data Action : Type 0 where
  end_worker fault : Action
  receive_complete send_complete accept_complete connect_complete : Overlapped → ℕ → Action
  no_bytes invalid_operation : Overlapped → Action

abbrev pub makes_connection : IoOperation → Bool
makes_connection io_accept = true
makes_connection io_connect = true
makes_connection _ = false

-- The `switch`.
unfoldable pub dispatch : IoOperation → Overlapped → ℕ → Action
dispatch io_recv o io_size = receive_complete o io_size
dispatch io_send o io_size = send_complete o io_size
dispatch io_accept o io_size = accept_complete o io_size
dispatch io_connect o io_size = connect_complete o io_size
dispatch io_disconnect o io_size = invalid_operation o

-- One message, up to the `switch`. The comparison of the pointer with the values of `PQCS` is left out:
-- no structure lies at an address below 6.
unfoldable pub action : ℕ → Option Overlapped → Action
unfolding dispatch
action io_size none = if io_size == 0 then end_worker else fault
action io_size (some o) =
    if io_size == 0 && not (makes_connection o.operation)
    then no_bytes o
    else dispatch o.operation o io_size

-- `workers` threads are in their loops, and `rounds` lists what those of them are at that have taken a
-- message; the others wait. `deleted` records the structures that were deleted and `posted` those of all
-- operations; the counters record what they are told.
pub record Port : Type 0 where
  pub queue : List Message
  pub workers : ℕ
  pub rounds : List Action
  pub shutdown_flag : Bool
  pub enable_monitoring : Bool
  pub recv_counter : List ℕ
  pub send_counter : List ℕ
  pub deleted : List ℕ
  pub posted : List ℕ
  pub crashed : Bool

abbrev pub completions : List Message → List ℕ
completions [] = []
completions (m ∷ ms) =
    let rest = completions ms in elim m.overlapped [ none ↦ rest | some o ↦ o.id ∷ rest ]

-- An operation completes, whoever has started it.
abbrev pub post : ℕ → Overlapped → Port → Port
post io_size o p = record p {
  queue = p.queue ++ record { io_size = io_size; overlapped = some o } ∷ [];
  posted = p.posted ++ o.id ∷ [];
}

abbrev pub delete_overlapped : Overlapped → Port → Port
delete_overlapped o p = record p { deleted = p.deleted ++ o.id ∷ [] }

-- `record`, if the manager monitors.
abbrev pub record_recv : ℕ → Port → Port
record_recv io_size p =
    if p.enable_monitoring then record p { recv_counter = p.recv_counter ++ io_size ∷ [] } else p

abbrev pub record_send : ℕ → Port → Port
record_send io_size p =
    if p.enable_monitoring then record p { send_counter = p.send_counter ++ io_size ∷ [] } else p

-- The end of a round: what the worker has done with its message.
unfoldable pub act : Action → Port → Port
act end_worker p = record p { queue = p.queue ++ shutdown_message ∷ []; workers = p.workers - 1 }
act fault p = record p { crashed = true }
act (receive_complete o io_size) p = delete_overlapped o (record_recv io_size p)
act (send_complete o io_size) p = delete_overlapped o (record_send io_size p)
act (accept_complete o io_size) p = delete_overlapped o p
act (connect_complete o io_size) p = delete_overlapped o p
act (no_bytes o) p = delete_overlapped o p
act (invalid_operation o) p = delete_overlapped o p

-- `GetQueuedCompletionStatus` hands a worker that waits the next message; `none` if there is none, or
-- no such worker.
unfoldable pub take_message : Port → Option Port
unfolding action
take_message p = elim p.queue [
  | [] ↦ none
  | m ∷ rest ↦
      if ltb (length p.rounds) p.workers
      then some (record p { queue = rest; rounds = action m.io_size m.overlapped ∷ p.rounds })
      else none
]

-- A worker takes a message, or one of those that have one comes to the end of its round.
pub data Turn : Port → Port → Type 0 where
  take : (p p' : Port) → take_message p ≡ some p' → Turn p p'
  finish :
      (p : Port) (before : List Action) (a : Action) (after : List Action)
      → p.rounds ≡ before ++ a ∷ after
      → Turn p (act a (record p { rounds = before ++ after }))

-- So many turns of the workers from `p` on, in any order, between which operations complete that the
-- handlers or other threads have started.
pub data Run (p : Port) : ℕ → Port → Type 0 where
  start : (q : Port) → q ≡ p → Run p zero q
  turn : (k : ℕ) (q q' : Port) → Run p k q → Turn q q' → Run p (suc k) q'
  complete :
      (k : ℕ) (q : Port) (io_size : ℕ) (o : Overlapped) → Run p k q → Run p k (post io_size o q)

-- `Shutdown`, up to its joins.
unfoldable pub shutdown : Port → Port
shutdown p =
    if p.shutdown_flag
    then p
    else record p { shutdown_flag = true; queue = p.queue ++ replicate p.workers shutdown_message }

-- The start of a worker: it takes the next of the numbers that all managers share, and writes its
-- counter at that place; `none` stands for a place outside the vector.
unfoldable pub register_counter : ℕ → ℕ → List (Option ℕ) → Option (ℕ × List (Option ℕ))
register_counter next_worker_index counter counters =
    if ltb next_worker_index (length counters)
    then some (next_worker_index + 1, set counters next_worker_index (some counter))
    else none
