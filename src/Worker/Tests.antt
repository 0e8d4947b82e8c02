-- ===== src/Worker/Tests.antt =====
-- The workers of IOCPManager.cpp at a concrete queue.
use jun_core_v.Common.{ℕ, ◌+◌, ◌*◌, ◌≤◌, ◌≡◌, ◌⊎◌, refl, [], ◌∷◌, true, false, none, some, length}
use jun_core_v.Common.Weights.{total}
use jun_core_v.Session.{io_recv}
use jun_core_v.Worker.{
  Overlapped, shutdown_message, receive_complete, Port, completions, action, dispatch, act,
  take_message, Turn, take, finish, Run, start, turn, shutdown, register_counter,
}
use jun_core_v.Worker.Shutdown.{shutdown-ends}
use jun_core_v.Worker.Deletion.{copies, holds, deleted_once}

abbrev received : ℕ → Overlapped
received id = record { id = id; operation = io_recv }

abbrev port : Port
port = record {
  queue =
      record { io_size = 7; overlapped = some (received 1) }
      ∷ record { io_size = 7; overlapped = some (received 2) }
      ∷ [];
  workers = 2;
  rounds = [];
  shutdown_flag = false;
  enable_monitoring = true;
  recv_counter = [];
  send_counter = [];
  deleted = [];
  posted = 1 ∷ 2 ∷ [];
  crashed = false;
}

abbrev both_busy : Port
both_busy = record port {
  queue = [];
  rounds = receive_complete (received 2) 7 ∷ receive_complete (received 1) 7 ∷ [];
}

-- Two workers take a message each, and the one that was later ends its round first.
abbrev second_first : Port
second_first = record both_busy {
  rounds = receive_complete (received 1) 7 ∷ [];
  recv_counter = 7 ∷ [];
  deleted = 2 ∷ [];
}

overtaking : Run port 3 second_first
unfolding take_message action dispatch act
overtaking =
    let first = turn 0 port _ (start port refl) (take port _ refl) in
    let second = turn 1 _ both_busy first (take _ both_busy refl) in
    turn 2 both_busy _ second (
      finish both_busy [] (receive_complete (received 2) 7) (receive_complete (received 1) 7 ∷ [])
        refl)

deleted_once_example :
    copies 2 second_first.deleted
      + total (holds 2) second_first.rounds
      + copies 2 (completions second_first.queue)
    ≡ copies 2 second_first.posted
deleted_once_example = deleted_once 2 port 3 second_first refl refl refl overtaking

abbrev stopping : Port
stopping = record port {
  queue =
      record { io_size = 7; overlapped = some (received 2) }
      ∷ shutdown_message
      ∷ shutdown_message
      ∷ [];
  rounds = receive_complete (received 1) 7 ∷ [];
  shutdown_flag = true;
}

-- After `Shutdown` a worker takes the first message.
one_taken : Run (shutdown port) 1 stopping
unfolding take_message action dispatch shutdown
one_taken = turn 0 (shutdown port) stopping (start (shutdown port) refl) (take _ stopping refl)

shutdown-ends_example :
    (1 ≤ 2 * (length port.queue + port.workers) + length port.rounds)
    × ((stopping.workers ≡ 0) ⊎ ((q' : Port) × Turn stopping q'))
shutdown-ends_example = shutdown-ends port 1 stopping refl (cc, (cc, tt)) one_taken

-- The workers of a second manager go on counting where those of the first stopped.
second_manager : register_counter 2 0 (none ∷ none ∷ []) ≡ none
unfolding register_counter
second_manager = refl
