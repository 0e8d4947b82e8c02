-- ===== src/Server/Tests.antt =====
-- Server.cpp at a concrete server.
use jun_core_v.Common.{ℕ, ◌≡◌, refl, [], ◌∷◌, ◌++◌, true, false, none, some, inr}
use jun_core_v.Session.{Session, Allocation, new_session}
use jun_core_v.Sockets.{replay, remove}
use jun_core_v.Accept.{AcceptAnswers, AcceptedAnswers, Welcome, post_accept_ex}
use jun_core_v.Server.{
  Server, StartAnswers, start_server, start_listening, start_accepting, stop_server, new_server,
  get_game_thread, handle_accept_complete,
}
use jun_core_v.Server.Start.{AllAre, failed_start-releases, stop-start}
use jun_core_v.Server.Accepting.{IsPolite, handle_accept_complete-handles, rejected_closes_next}

abbrev allocation : Allocation
allocation = record {
  memory = λ address. 0;
  block = 8192;
  ip_word = 0;
  port_word = 0;
  time_word = 0;
}

abbrev accept_answers : ℕ → AcceptAnswers
accept_answers sock = record {
  wsa_socket = some sock;
  registered = true;
  accepting = true;
  allocation = allocation;
  now = 4;
}

abbrev answers : StartAnswers
answers = record {
  socket = some 10;
  bound = true;
  listening = true;
  loaded_accept = true;
  loaded_sockaddrs = true;
  registered = true;
  accept = accept_answers 11;
  started = true;
}

-- The socket of the first accept cannot be registered.
abbrev unregistered : StartAnswers
unregistered = record answers { accept = record (accept_answers 11) { registered = false } }

failed_start-releases_example :
    let after = start_server true unregistered (new_server 1 2) in
    (replay after.calls (5 ∷ []) ≡ some (5 ∷ []))
    × (after.accepting ≡ none)
    × (after.server.running ≡ false)
    × (after.server.core_running ≡ false)
    × AllAre false after.server.game_running
unfolding new_server start_server start_listening start_accepting post_accept_ex
failed_start-releases_example =
    failed_start-releases true unregistered (new_server 1 2) (5 ∷ []) refl refl (refl, (refl, tt))
      refl refl refl

stop-start_example :
    let after = start_server true answers (new_server 1 2) in
    let stopped = stop_server after.server in
    (sock accepted : ℕ) × (answers.accept.wsa_socket ≡ some accepted)
    × (replay after.calls (5 ∷ []) ≡ some (accepted ∷ sock ∷ 5 ∷ []))
    × (after.server.running ≡ true)
    × (after.server.listener ≡ some sock)
    × (after.server.core_running ≡ true)
    × AllAre true after.server.game_running
    × (replay (after.calls ++ stopped.1) (5 ∷ []) ≡ some (accepted ∷ 5 ∷ []))
    × (stopped.0.running ≡ false)
    × (stopped.0.listener ≡ none)
    × (stopped.0.core_running ≡ false)
    × AllAre false stopped.0.game_running
unfolding new_server start_server start_listening start_accepting post_accept_ex
stop-start_example = stop-start true answers (new_server 1 2) (5 ∷ []) refl

abbrev server : Server
server = record (new_server 1 2) { running = true; listener = some 10; fn_accept_ex = true }

-- The application does nothing with a new session.
abbrev quiet : Session → Welcome
quiet s = record { session = s; sending = false; calls = [] }

quiet-IsPolite : IsPolite quiet
unfolding replay
quiet-IsPolite = record { same_handles = λ s socks. refl; same_sock = λ s. refl }

abbrev accepted_answers : AcceptedAnswers
accepted_answers = record { updated = true; peer = some (9, 8); user = 3; posted = true; now = 6 }

abbrev session : Session
session = new_session allocation 11 1

handle_accept_complete-handles_example :
    let after =
      handle_accept_complete quiet 2 accepted_answers (accept_answers 12) server session in
    (after.accepting ≡ some (new_session allocation 12 1))
    × (replay after.calls (11 ∷ 10 ∷ [])
        ≡ some (elim after.session [ none ↦ 12 ∷ 10 ∷ [] | some kept ↦ 12 ∷ 11 ∷ 10 ∷ [] ]))
unfolding new_server new_session remove
handle_accept_complete-handles_example =
    handle_accept_complete-handles quiet 2 11 12 (9, 8) accepted_answers (accept_answers 12) server
      session (10 ∷ []) quiet-IsPolite refl refl refl refl refl refl refl

abbrev no_peer : AcceptedAnswers
no_peer = record accepted_answers { peer = none }

rejected_closes_next_example :
    let after = handle_accept_complete quiet 2 no_peer (accept_answers 11) server session in
    (after.accepting ≡ some (new_session allocation 11 1))
    × (replay after.calls (11 ∷ 10 ∷ []) ≡ some (10 ∷ []))
unfolding new_server new_session
rejected_closes_next_example =
    rejected_closes_next quiet 2 11 no_peer (accept_answers 11) server session (10 ∷ []) refl
      (inr refl) refl refl refl

second_thread : get_game_thread 1 (new_server 1 2).game_running ≡ some false
unfolding get_game_thread new_server
second_thread = refl
