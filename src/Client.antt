-- ===== src/Client.antt =====
-- JunCore/network/Client.h and Client.cpp: the connections of a client and the thread that makes them
-- again, with the threads that complete and end them. The calls out of the process that make and end
-- one connection are in module Connect.
pub mod Invariant
pub mod Reconnect
pub mod Delay
mod Tests
use jun_core_v.Common.{
  ℕ, zero, suc, ◌+◌, ◌-◌, List, [], ◌∷◌, ◌++◌, Bool, true, false, not, ltb, ◌≡◌, if◌then◌else◌,
  Option, none, some,
}
use jun_core_v.Connect.{
  ConnectAnswers, CompleteAnswers, Completion, live, reconnect, unclaimed, post_connect_ex,
  handle_connect_complete,
}
use jun_core_v.Session.{
  Session, Call, Allocation, new_session, set, recv_async, destroy, open_socket, close_socket,
  bind_socket, register_socket, connect_ex, load_extensions, on_connect_complete,
}

-- Where the reconnect thread stands: before the tests of `running_`, at the semaphore, at the load of
-- the pending connections, and with that many loaded and so many of them still to be posted.
pub data Thread : Type 0 where
  not_started testing acquiring woken loading ended : Thread
  posting : ℕ → ℕ → Thread

-- Where `StopClient` stands: before its `release`, and at its `join`.
pub data Stop : Type 0 where
  not_stopping releasing joining : Stop

-- `pending` is `pendingConnectCount_`, and `signal` the semaphore, whose `release` leaves a raised one
-- raised. Beyond the class, `starting` is the number of first connections that `StartClient` has yet to
-- post and `triggering` the number of threads between the two lines of `TriggerReconnect`;
-- `connecting` and `made` hold the sessions with a posted connect and with a made one; `failed_posts` counts the
-- calls of `PostConnectEx` that returned false and `dropped` the connections that ended when the client
-- had stopped.
pub record Client : Type 0 where
  pub id : ℕ
  pub target : ℕ
  pub pending : ℕ
  pub running : Bool
  pub thread : Thread
  pub signal : Bool
  pub fn_connect_ex : Bool
  pub starting : ℕ
  pub triggering : ℕ
  pub stop : Stop
  pub connecting : List Session
  pub made : List Session
  pub failed_posts : ℕ
  pub dropped : ℕ

unfoldable pub new_client : ℕ → ℕ → Client
new_client id target = record {
  id = id;
  target = target;
  pending = 0;
  running = false;
  thread = not_started;
  signal = false;
  fn_connect_ex = false;
  starting = 0;
  triggering = 0;
  stop = not_stopping;
  connecting = [];
  made = [];
  failed_posts = 0;
  dropped = 0;
}

-- `StartClient` up to its loop. `loaded` is the answer of `LoadConnectExFunctions`; `none` stands for
-- the end of the program, when a thread object that has a thread is assigned to.
unfoldable pub start_client : Bool → Bool → Client → Option Client
start_client initialized loaded c =
    if not initialized
    then some c
    else if not loaded
    then some (record c { running = false })
    else elim c.thread [
      | not_started ↦
          some (record c {
            running = true;
            fn_connect_ex = true;
            thread = testing;
            starting = c.target;
          })
      | _ ↦ none
    ]

-- A call of `PostConnectEx`, whose result is not looked at.
unfoldable pub attempt : ConnectAnswers → Client → Client
attempt a c = elim (post_connect_ex c.fn_connect_ex c.id a).0 [
  | none ↦ record c { failed_posts = suc c.failed_posts }
  | some session ↦ record c { connecting = session ∷ c.connecting }
]

-- The next step of `ReconnectThreadFunc`; `none` when it waits or has ended.
unfoldable pub thread_step : Thread → ConnectAnswers → Client → Option Client
unfolding attempt
thread_step not_started a c = none
thread_step testing a c =
    if c.running then some (record c { thread = acquiring }) else some (record c { thread = ended })
thread_step acquiring a c =
    if c.signal then some (record c { signal = false; thread = woken }) else none
thread_step woken a c =
    if c.running then some (record c { thread = loading }) else some (record c { thread = ended })
thread_step loading a c =
    if ltb 0 c.pending
    then some (record c { thread = posting c.pending c.pending })
    else some (record c { thread = testing })
thread_step (posting n zero) a c = some (record c { pending = c.pending - n; thread = testing })
thread_step (posting n (suc left)) a c = some (attempt a (record c { thread = posting n left }))
thread_step ended a c = none

abbrev pub reconnect_delay_ms : ℕ
reconnect_delay_ms = 1000

-- The wakeup at time `now` in milliseconds: the new `lastWakeupTime_` and the time of its posts, if the
-- sleep takes as long as it is told to.
unfoldable pub wake_up : ℕ → ℕ → ℕ × ℕ
wake_up now last_wakeup =
    let elapsed = now - last_wakeup in
    if ltb elapsed reconnect_delay_ms
    then (now, now + (reconnect_delay_ms - elapsed))
    else (now, now)

-- `TriggerReconnect`, in two accesses.
abbrev pub add_pending : Client → Client
add_pending c = record c { pending = suc c.pending; triggering = suc c.triggering }

unfoldable pub release_signal : Client → Client
release_signal c = record c { triggering = c.triggering - 1; signal = true }

-- `OnUserDisconnect`, up to the `release` in `TriggerReconnect`.
unfoldable pub on_user_disconnected : Client → Client
on_user_disconnected c = if c.running then add_pending c else record c { dropped = suc c.dropped }

-- `StopClient`, up to its `release`, that `release`, and the `join`.
unfoldable pub stop_client : Client → Client
stop_client c = if c.running then record c { running = false; stop = releasing } else c

unfoldable pub stop_release : Client → Client
stop_release c = record c { signal = true; stop = joining }

-- The thread has ended and is joined.
unfoldable pub stop_join : Client → Client
stop_join c = record c { thread = not_started; stop = not_stopping }

-- The reconnect thread alone for so many steps, with the same answers for every post.
unfoldable pub run_thread : ℕ → ConnectAnswers → Client → Client
run_thread zero a c = c
run_thread (suc n) a c = elim (thread_step c.thread a c) [ none ↦ c | some c' ↦ run_thread n a c' ]

-- What the completion does to the client.
abbrev pub completed : Completion → Client → Client
completed (live session calls) c = record c { made = session ∷ c.made }
completed (reconnect calls) c = add_pending c
completed (unclaimed calls) c = c

-- One access of any thread. The system chooses when an operation completes and a connection ends, and
-- one thread at a time calls `StopClient`.
pub data Step : Client → Client → Type 0 where
  first_post :
      (c : Client) (n : ℕ) (a : ConnectAnswers)
      → c.starting ≡ suc n
      → Step c (attempt a (record c { starting = n }))
  thread_acts :
      (c c' : Client) (a : ConnectAnswers) → thread_step c.thread a c ≡ some c' → Step c c'
  completes :
      (c : Client) (before : List Session) (session : Session) (after : List Session) (iocp : ℕ)
      (a : CompleteAnswers)
      → c.connecting ≡ before ++ session ∷ after
      → Step c (
          completed
            (handle_connect_complete (some c.id) iocp a session)
            (record c { connecting = before ++ after }))
  disconnects :
      (c : Client) (before : List Session) (session : Session) (after : List Session)
      → c.made ≡ before ++ session ∷ after
      → Step c (on_user_disconnected (record c { made = before ++ after }))
  releases : (c : Client) (n : ℕ) → c.triggering ≡ suc n → Step c (release_signal c)
  stops : (c : Client) → Step c (stop_client c)
  stop_releases : (c : Client) → c.stop ≡ releasing → Step c (stop_release c)
  stop_joins : (c : Client) → c.stop ≡ joining → c.thread ≡ ended → Step c (stop_join c)

-- From the start of a new client on.
pub data Reachable : Client → Type 0 where
  start :
      (id target : ℕ) (initialized loaded : Bool) (c : Client)
      → start_client initialized loaded (new_client id target) ≡ some c
      → c.running ≡ true
      → Reachable c
  next : (c c' : Client) → Reachable c → Step c c' → Reachable c'
