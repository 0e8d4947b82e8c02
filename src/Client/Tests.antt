-- ===== src/Client/Tests.antt =====
-- Client.cpp at concrete connections.
use jun_core_v.Common.{ℕ, ◌+◌, ◌≤◌, ◌≡◌, refl, [], ◌∷◌, true, false, none, some, length, arith}
use jun_core_v.Session.{Session, Allocation, new_session}
use jun_core_v.Sockets.{replay, remove}
use jun_core_v.Connect.{ConnectAnswers, CompleteAnswers, post_connect_ex, handle_connect_complete}
use jun_core_v.Client.{
  Client, testing, acquiring, ended, joining, attempt, thread_step, run_thread, new_client,
  start_client, stop_client, stop_release, release_signal, wake_up, first_post, thread_acts,
  completes, releases, stops, stop_releases, Reachable, start, next,
}
use jun_core_v.Client.Reconnect.{idle-all_connected, join-returns}
use jun_core_v.Client.Delay.{every_second_round_delayed}
use jun_core_v.Connect.Handles.{post_connect_ex-handles}

abbrev allocation : Allocation
allocation = record {
  memory = λ address. 0;
  block = 8192;
  ip_word = 0;
  port_word = 0;
  time_word = 0;
}

-- Everything succeeds with the socket `sock`.
abbrev answers : ℕ → ConnectAnswers
answers sock = record {
  wsa_socket = some sock;
  bound = true;
  registered = true;
  address_valid = true;
  connecting = true;
  allocation = allocation;
  now = 5;
}

-- `ConnectEx` fails.
abbrev refused : ℕ → ConnectAnswers
refused sock = record (answers sock) { connecting = false }

abbrev not_updated : CompleteAnswers
not_updated = record { updated = false; local_address = none; user = 9; posted = true; now = 6 }

-- A client with one connection that fails, up to where its thread waits again.
abbrev started : Client
started = record (new_client 1 1) {
  running = true;
  fn_connect_ex = true;
  thread = testing;
  starting = 1;
}

started-Reachable : Reachable started
unfolding start_client new_client
started-Reachable = start 1 1 true true started refl refl

abbrev session : ℕ → Session
session sock = new_session allocation sock 1

abbrev reconnected : Client
reconnected = record (new_client 1 1) {
  running = true;
  fn_connect_ex = true;
  thread = acquiring;
  connecting = session 21 ∷ [];
}

reconnected-Reachable : Reachable reconnected
unfolding new_client start_client attempt post_connect_ex handle_connect_complete thread_step
    release_signal
reconnected-Reachable =
    let c₁ = next _ _ started-Reachable (first_post _ 0 (answers 20) refl) in
    let c₂ = next _ _ c₁ (completes _ [] (session 20) [] 3 not_updated refl) in
    let c₃ = next _ _ c₂ (releases _ 0 refl) in
    let c₄ = next _ _ c₃ (thread_acts _ _ (answers 0) refl) in
    let c₅ = next _ _ c₄ (thread_acts _ _ (answers 0) refl) in
    let c₆ = next _ _ c₅ (thread_acts _ _ (answers 0) refl) in
    let c₇ = next _ _ c₆ (thread_acts _ _ (answers 0) refl) in
    let c₈ = next _ _ c₇ (thread_acts _ _ (answers 21) refl) in
    let c₉ = next _ _ c₈ (thread_acts _ _ (answers 0) refl) in
    next _ _ c₉ (thread_acts _ _ (answers 0) refl)

idle-all_connected_example : length (session 21 ∷ []) + length {A = Session} [] + 0 + 0 ≡ 1
unfolding new_client
idle-all_connected_example = idle-all_connected reconnected-Reachable refl refl refl refl

abbrev stopping : Client
stopping = record reconnected { running = false; signal = true; stop = joining }

stopping-Reachable : Reachable stopping
unfolding new_client stop_client stop_release
stopping-Reachable = next _ _ (next _ _ reconnected-Reachable (stops _)) (stop_releases _ refl)

join-returns_example : (run_thread (0 + 0 + 3) (answers 22) stopping).thread ≡ ended
unfolding new_client
join-returns_example = join-returns (answers 22) stopping-Reachable refl

every_second_round_delayed_example : 1000 + 1000 ≤ 2002
unfolding wake_up
every_second_round_delayed_example =
    every_second_round_delayed 0 2 1000 1002 1002 1004 2002 (ground arith) (omega arith)
      (ground arith) (omega arith) (ground arith)

post_connect_ex-handles_example : replay (post_connect_ex true 1 (refused 20)).1 (7 ∷ []) ≡ none
unfolding post_connect_ex remove
post_connect_ex-handles_example = post_connect_ex-handles true 1 20 (refused 20) (7 ∷ []) refl refl
