-- ===== src/Accept.antt =====
-- `PostAcceptEx` and `LoadAcceptExFunctions` of JunCore/network/Server.cpp and
-- `HandleAcceptComplete` of IOCPManager.cpp. What the system calls answer is an argument.
use jun_core_v.Common.{
  ℕ, List, [], ◌∷◌, ◌++◌, Bool, false, not, ◌||◌, if◌then◌else◌, Option, none, some,
}
use jun_core_v.Session.{
  Session, Call, Allocation, new_session, close, set, recv_async, destroy, is_invalid, open_socket,
  close_socket, register_socket, accept_ex, on_session_connect,
}

-- What the calls of one `PostAcceptEx` answer: the new socket, and whether the others succeed.
-- `AcceptEx` does if it returns TRUE or is pending.
pub record AcceptAnswers : Type 0 where
  pub wsa_socket : Option ℕ
  pub registered : Bool
  pub accepting : Bool
  pub allocation : Allocation
  pub now : ℕ

-- `PostAcceptEx` of the server `engine`: the session that its completion holds, if it returns true,
-- and the calls. Deleting the overlapped structure drops the last reference to the session.
unfoldable pub post_accept_ex : Bool → Option ℕ → ℕ → AcceptAnswers → Option Session × List Call
post_accept_ex fn_accept_ex listen_socket engine a =
    if not fn_accept_ex then (none, []) else elim a.wsa_socket [
      | none ↦ (none, [])
      | some sock ↦
          if not a.registered
          then (none, open_socket sock ∷ register_socket sock ∷ close_socket sock ∷ [])
          else if not a.accepting
          then (
            none,
            open_socket sock
                ∷ register_socket sock
                ∷ accept_ex listen_socket sock
                ∷ close_socket sock
                ∷ destroy a.now (new_session a.allocation sock engine),
          )
          else (
            some (new_session a.allocation sock engine),
            open_socket sock ∷ register_socket sock ∷ accept_ex listen_socket sock ∷ [],
          )
    ]

-- What the calls of `HandleAcceptComplete` answer: `SO_UPDATE_ACCEPT_CONTEXT`, the address and port of
-- the peer, the new user, and whether the receive is posted.
pub record AcceptedAnswers : Type 0 where
  pub updated : Bool
  pub peer : Option (ℕ × ℕ)
  pub user : ℕ
  pub posted : Bool
  pub now : ℕ

-- What the application makes of a new session in `OnSessionConnect`: it may send, so that an
-- outstanding send holds the session, and disconnect.
pub record Welcome : Type 0 where
  pub session : Session
  pub sending : Bool
  pub calls : List Call

-- The session at the end of `HandleAcceptComplete`, whether an operation holds it then, and the calls
-- before `PostNewAccept`.
pub record Handled : Type 0 where
  pub session : Session
  pub is_held : Bool
  pub calls : List Call

unfoldable pub accepted : (Session → Welcome) → ℕ → ℕ → ℕ × ℕ → AcceptedAnswers → Session → Handled
accepted welcome server iocp peer a session =
    let w =
      welcome
        (set session.sock peer.0 peer.1 (some server) (some iocp) (some a.user) a.now session) in
    record {
      session = w.session;
      is_held = w.sending || not (is_invalid w.session.sock || w.session.pending_disconnect);
      calls = on_session_connect a.user ∷ w.calls ++ (recv_async a.posted w.session).1;
    }

-- The branches that only close the socket.
abbrev pub rejected : Session → Handled
rejected session = record { session = session; is_held = false; calls = close session.sock }

-- `HandleAcceptComplete` up to `PostNewAccept`. `server` is what the cast of the session's engine gives.
unfoldable pub complete_accept :
    (Session → Welcome) → Option ℕ → ℕ → AcceptedAnswers → Session → Handled
unfolding accepted
complete_accept welcome none iocp a session = rejected session
complete_accept welcome (some server) iocp a session =
    if not a.updated then rejected session else elim a.peer [
      | none ↦ rejected session
      | some peer ↦ accepted welcome server iocp peer a session
    ]

-- The end of the worker's round: the completion lets go of the session.
unfoldable pub let_go : ℕ → Handled → List Call
let_go now h = if h.is_held then [] else destroy now h.session
