-- ===== src/Server.antt =====
-- JunCore/network/Server.h and Server.cpp: starting and stopping a server, and its pending accept. The
-- calls out of the process that make a connection are in module Accept.
pub mod Start
pub mod Accepting
mod Tests
use jun_core_v.Common.{
  ℕ, replicate, zero, suc, ◌+◌, ◌≡◌, List, [], ◌∷◌, ◌++◌, map, Bool, true, false, not,
  if◌then◌else◌, Option, none, some,
}
use jun_core_v.Session.{
  Session, Call, close, open_socket, close_socket, bind_socket, listen_socket, register_socket,
  load_extensions, on_start, on_stop,
}
use jun_core_v.Accept.{
  AcceptAnswers, AcceptedAnswers, Welcome, Handled, post_accept_ex, complete_accept, let_go,
}

-- `listener` is `listenSocket`; `core_running` and `game_running` say which threads run, and
-- `manager_thread` which server's core thread the GameObjectManager is given.
pub record Server : Type 0 where
  pub id : ℕ
  pub running : Bool
  pub listener : Option ℕ
  pub fn_accept_ex : Bool
  pub fn_get_accept_ex_sockaddrs : Bool
  pub core_running : Bool
  pub game_running : List Bool
  pub manager_thread : Option ℕ

-- The constructor.
unfoldable pub new_server : ℕ → ℕ → Server
new_server id game_thread_count = record {
  id = id;
  running = false;
  listener = none;
  fn_accept_ex = false;
  fn_get_accept_ex_sockaddrs = false;
  core_running = false;
  game_running = replicate game_thread_count false;
  manager_thread = none;
}

unfoldable pub start_game_threads : Server → Server
start_game_threads s = record s {
  core_running = true;
  manager_thread = some s.id;
  game_running = map (λ r. true) s.game_running;
}

unfoldable pub stop_game_threads : Server → Server
stop_game_threads s = record s {
  core_running = false;
  game_running = map (λ r. false) s.game_running;
}

-- `GetGameThread` at a non-negative index: the place of the thread.
unfoldable pub get_game_thread : ℕ → List Bool → Option Bool
get_game_thread index [] = none
get_game_thread zero (thread ∷ threads) = some thread
get_game_thread (suc index) (thread ∷ threads) = get_game_thread index threads

-- `LoadAcceptExFunctions`, with the results of the two calls of `WSAIoctl`.
unfoldable pub load_accept_ex_functions : Bool → Bool → Server → Bool × Server
load_accept_ex_functions first second s =
    if not first
    then (false, s)
    else if not second
    then (false, record s { fn_accept_ex = true })
    else (true, record s { fn_accept_ex = true; fn_get_accept_ex_sockaddrs = true })

-- What the calls of one `StartServer` answer. `started` is whether the application's `OnServerStart`
-- returns; otherwise it throws an exception.
pub record StartAnswers : Type 0 where
  pub socket : Option ℕ
  pub bound : Bool
  pub listening : Bool
  pub loaded_accept : Bool
  pub loaded_sockaddrs : Bool
  pub registered : Bool
  pub accept : AcceptAnswers
  pub started : Bool

-- What `StartServer` returns, the server, the session of a posted accept, and the calls.
pub record Started : Type 0 where
  pub result : Bool
  pub server : Server
  pub accepting : Option Session
  pub calls : List Call

-- A failure after the socket is made.
abbrev pub refuse : ℕ → List Call → Server → Started
refuse sock calls s = record {
  result = false;
  server = stop_game_threads s;
  accepting = none;
  calls = calls ++ close_socket sock ∷ [];
}

-- The first `PostAcceptEx` and `OnServerStart`.
unfoldable pub start_accepting : StartAnswers → ℕ → List Call → Server → Started
unfolding stop_game_threads
start_accepting a sock calls s =
    let posted = post_accept_ex s.fn_accept_ex s.listener s.id a.accept in
    elim posted.0 [
      | none ↦ refuse sock (calls ++ posted.1) (record s { running = false })
      | some session ↦
          if a.started
          then record {
            result = true;
            server = record s { running = true };
            accepting = some session;
            calls = calls ++ posted.1 ++ on_start ∷ [];
          }
          else record {
            result = false;
            server = stop_game_threads (record s { running = true });
            accepting = some session;
            calls = calls ++ posted.1 ++ on_start ∷ [];
          }
    ]

-- `StartServer` from the new socket on, with the game threads started.
unfoldable pub start_listening : StartAnswers → ℕ → Server → Started
unfolding stop_game_threads start_accepting load_accept_ex_functions
start_listening a sock s =
    if not a.bound
    then refuse sock (open_socket sock ∷ bind_socket sock ∷ []) s
    else if not a.listening
    then refuse sock (open_socket sock ∷ bind_socket sock ∷ listen_socket sock ∷ []) s
    else (let loaded = load_accept_ex_functions a.loaded_accept a.loaded_sockaddrs s in
        let calls =
          open_socket sock ∷ bind_socket sock ∷ listen_socket sock ∷ load_extensions sock ∷ [] in
        if not loaded.0
        then refuse sock calls loaded.1
        else if not a.registered
        then refuse sock (calls ++ register_socket sock ∷ []) loaded.1
        else start_accepting a sock (calls ++ register_socket sock ∷ []) loaded.1)

-- `StartServer`.
unfoldable pub start_server : Bool → StartAnswers → Server → Started
unfolding start_game_threads stop_game_threads start_listening
start_server initialized a s =
    let refused : Started = record { result = false; server = s; accepting = none; calls = [] } in
    if not initialized then refused else if s.running then refused else elim a.socket [
      | none ↦ record refused {
        server = stop_game_threads (record (start_game_threads s) { listener = none });
      }
      | some sock ↦ start_listening a sock (record (start_game_threads s) { listener = some sock })
    ]

-- `StopServer`.
unfoldable pub stop_server : Server → Server × List Call
unfolding stop_game_threads
stop_server s = if not s.running then (s, []) else (
  record (stop_game_threads s) { running = false; listener = none },
  close s.listener ++ on_stop ∷ [],
)

-- The sessions after `HandleAcceptComplete` and the deletion of its completion: the one that was
-- accepted, if an operation holds it, and the one of the next accept, if it is posted.
pub record AfterAccept : Type 0 where
  pub session : Option Session
  pub accepting : Option Session
  pub calls : List Call

-- `HandleAcceptComplete` for a session of this server.
unfoldable pub handle_accept_complete :
    (Session → Welcome) → ℕ → AcceptedAnswers → AcceptAnswers → Server → Session → AfterAccept
unfolding let_go
handle_accept_complete welcome iocp a next s session =
    let handled = complete_accept welcome (some s.id) iocp a session in
    let posted = post_accept_ex s.fn_accept_ex s.listener s.id next in
    record {
      session = if handled.is_held then some handled.session else none;
      accepting = posted.0;
      calls = handled.calls ++ posted.1 ++ let_go a.now handled;
    }
