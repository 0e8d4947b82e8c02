-- ===== src/Session.antt =====
-- JunCore/network/Session.h and Session.cpp: one connection, as its owner thread sees it. What the
-- socket and completion-port calls do outside the process is a list of `Call`s; what they answer
-- is an argument.
use jun_core_v.Common.{
  ℕ, ◌%◌, ◌^◌, List, [], ◌∷◌, ◌++◌, Bool, true, false, ◌||◌, Option, none, some, if◌then◌else◌,
}
use jun_core_v.Common.Memory.{Memory}
use jun_core_v.RingBuffer.{RingBuffer, ring_buffer, clear, direct_enqueue_size, remain_enqueue_size}

pub data IoOperation : Type 0 where
  io_recv io_send io_accept io_connect io_disconnect : IoOperation

-- The calls out of the process.
pub data Call : Type 0 where
  close_socket : ℕ → Call
  cancel_io : Call
  wsa_send : List (List ℕ) → Call
  wsa_recv : List (ℕ × ℕ) → Call
  open_socket : ℕ → Call
  bind_socket listen_socket register_socket load_extensions : ℕ → Call
  -- the listening socket and the one to accept with
  accept_ex : Option ℕ → ℕ → Call
  connect_ex : ℕ → Call
  -- `PostQueuedCompletionStatus` with a transfer of no bytes
  post_completion : IoOperation → Call
  -- the functions that a user of the library overrides
  on_user_disconnect on_session_connect : ℕ → Call
  on_connect_complete : Option ℕ → Bool → Call
  on_start on_stop : Call

-- `sock` is `none` for `INVALID_SOCKET`; `send_packet_arr` holds the `send_packet_count_` packets
-- that are being sent. Packets in `send_q` are in the order in which they were put in.
pub record Session : Type 0 where
  pub sock : Option ℕ
  pub ip : ℕ
  pub port : ℕ
  pub send_flag : Bool
  pub pending_disconnect : Bool
  pub send_q : List (List ℕ)
  pub send_packet_arr : List (List ℕ)
  pub recv_buf : RingBuffer
  pub last_recv_time : ℕ
  pub engine : Option ℕ
  pub iocp_handle : Option ℕ
  pub owner_user : Option ℕ

-- `Set`, at the tick count `now`. The loop that frees the queued packets empties the queue.
unfoldable pub set : Option ℕ → ℕ → ℕ → Option ℕ → Option ℕ → Option ℕ → ℕ → Session → Session
set sock ip port engine iocp_handle user now s = record s {
  sock = sock;
  ip = ip;
  port = port;
  send_flag = false;
  pending_disconnect = false;
  send_packet_arr = [];
  last_recv_time = now % 2 ^ 32;
  engine = engine;
  iocp_handle = iocp_handle;
  owner_user = user;
  recv_buf = clear s.recv_buf;
  send_q = [];
}

-- `closesocket`, if the handle is one.
abbrev pub close : Option ℕ → List Call
close none = []
close (some sock) = close_socket sock ∷ []

-- Where a new session lies: the block of its ring, and what its members without an initialiser hold.
pub record Allocation : Type 0 where
  pub memory : Memory
  pub block : ℕ
  pub ip_word : ℕ
  pub port_word : ℕ
  pub time_word : ℕ

-- A new session with its socket and its engine, as `PostAcceptEx` and `PostConnectEx` set it up.
unfoldable pub new_session : Allocation → ℕ → ℕ → Session
new_session a sock engine = record {
  sock = some sock;
  ip = a.ip_word;
  port = a.port_word;
  send_flag = false;
  pending_disconnect = false;
  send_q = [];
  send_packet_arr = [];
  recv_buf = ring_buffer a.memory a.block;
  last_recv_time = a.time_word;
  engine = some engine;
  iocp_handle = none;
  owner_user = none;
}

unfoldable pub release : ℕ → Session → Session × List Call
unfolding set
release now s = (set none 0 0 none none none now s, close s.sock)

-- The destructor, when the last reference to the session goes.
unfoldable pub destroy : ℕ → Session → List Call
unfolding release
destroy now s =
    elim s.engine [
      | none ↦ []
      | some engine ↦ elim s.owner_user [ none ↦ [] | some user ↦ on_user_disconnect user ∷ [] ]
    ]
    ++ (release now s).1

pub disconnect : Session → Session × List Call
disconnect s =
    if s.pending_disconnect
    then (s, [])
    else (record s { pending_disconnect = true }, cancel_io ∷ [])

abbrev pub is_invalid : Option ℕ → Bool
is_invalid none = true
is_invalid (some sock) = false

-- The two stretches of the receive buffer that `WSARecv` is to fill.
unfoldable pub recv_bufs : RingBuffer → List (ℕ × ℕ)
recv_bufs r = (r.write_pos, direct_enqueue_size r) ∷ (r.begin, remain_enqueue_size r) ∷ []

-- `posted` is whether `WSARecv` succeeded or is pending. If not, the completion is posted by hand.
unfoldable pub recv_async : Bool → Session → Bool × List Call
unfolding recv_bufs
recv_async posted s =
    if is_invalid s.sock || s.pending_disconnect
    then (false, [])
    else (let request = wsa_recv (recv_bufs s.recv_buf) in
        if posted then (true, request ∷ []) else (false, request ∷ post_completion io_recv ∷ []))
