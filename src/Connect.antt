-- ===== src/Connect.antt =====
-- `PostConnectEx` and `LoadConnectExFunctions` of JunCore/network/Client.cpp and
-- `HandleConnectComplete` of IOCPManager.cpp. What the system calls answer is an argument.
pub mod Handles
use jun_core_v.Common.{
  ℕ, zero, suc, ◌+◌, ◌-◌, ◌<◌, ◌≡◌, List, [], ◌∷◌, ◌++◌, Bool, true, false, not, ltb, if◌then◌else◌,
  Option, none, some,
}
use jun_core_v.Session.{
  Session, Call, Allocation, new_session, close, set, recv_async, destroy, open_socket,
  close_socket, bind_socket, register_socket, connect_ex, load_extensions, on_connect_complete,
}

-- What the calls of one `PostConnectEx` answer: the new socket, and whether the others succeed.
-- `ConnectEx` does if it returns TRUE or is pending.
pub record ConnectAnswers : Type 0 where
  pub wsa_socket : Option ℕ
  pub bound : Bool
  pub registered : Bool
  pub address_valid : Bool
  pub connecting : Bool
  pub allocation : Allocation
  pub now : ℕ

-- `PostConnectEx` from the new session on.
abbrev pub connect_session : ConnectAnswers → Session → ℕ → List Call → Option Session × List Call
connect_session a session sock calls =
    if not a.address_valid
    then (none, calls ++ close_socket sock ∷ destroy a.now session)
    else if not a.connecting
    then (none, calls ++ connect_ex sock ∷ close_socket sock ∷ destroy a.now session)
    else (some session, calls ++ connect_ex sock ∷ [])

-- `PostConnectEx`: the session that its completion holds, if it returns true, and the calls. Deleting
-- the overlapped structure drops the last reference to the session.
unfoldable pub post_connect_ex : Bool → ℕ → ConnectAnswers → Option Session × List Call
post_connect_ex fn_connect_ex engine a =
    if not fn_connect_ex then (none, []) else elim a.wsa_socket [
      | none ↦ (none, [])
      | some sock ↦
          if not a.bound
          then (none, open_socket sock ∷ bind_socket sock ∷ close_socket sock ∷ [])
          else if not a.registered
          then (
            none,
            open_socket sock ∷ bind_socket sock ∷ register_socket sock ∷ close_socket sock ∷ [],
          )
          else connect_session a (new_session a.allocation sock engine) sock
              (open_socket sock ∷ bind_socket sock ∷ register_socket sock ∷ [])
    ]

-- `LoadConnectExFunctions`, with a temporary socket and the result of `WSAIoctl`.
unfoldable pub load_connect_ex_functions : Option ℕ → Bool → Bool × List Call
load_connect_ex_functions none loaded = (false, [])
load_connect_ex_functions (some sock) loaded =
    (loaded, open_socket sock ∷ load_extensions sock ∷ close_socket sock ∷ [])

-- What the calls of `HandleConnectComplete` answer: `SO_UPDATE_CONNECT_CONTEXT`, the local address
-- and port, the new user, and whether the receive is posted.
pub record CompleteAnswers : Type 0 where
  pub updated : Bool
  pub local_address : Option (ℕ × ℕ)
  pub user : ℕ
  pub posted : Bool
  pub now : ℕ

abbrev pub address_or_zero : Option (ℕ × ℕ) → ℕ × ℕ
address_or_zero none = (0, 0)
address_or_zero (some address) = address

-- What `HandleConnectComplete` makes of the session: it lives on, held by its receive; or the client
-- is to connect again; or nobody knows of it. The calls are those up to its end with the completion.
pub data Completion : Type 0 where
  live : Session → List Call → Completion
  reconnect : List Call → Completion
  unclaimed : List Call → Completion

-- The branch on which the connection is made.
unfoldable pub connected : ℕ → ℕ → CompleteAnswers → Session → Completion
connected client iocp a session =
    let address = address_or_zero a.local_address in
    let s =
      set session.sock address.0 address.1 (some client) (some iocp) (some a.user) a.now session in
    live s ((recv_async a.posted s).1 ++ on_connect_complete (some a.user) true ∷ [])

-- `HandleConnectComplete`. `client` is what the cast of the session's engine gives.
unfoldable pub handle_connect_complete : Option ℕ → ℕ → CompleteAnswers → Session → Completion
unfolding connected
handle_connect_complete none iocp a session =
    unclaimed (close session.sock ++ destroy a.now session)
handle_connect_complete (some client) iocp a session =
    if a.updated
    then connected client iocp a session
    else reconnect (close session.sock ++ on_connect_complete none false ∷ destroy a.now session)
