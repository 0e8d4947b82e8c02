-- ===== src/SendPath.antt =====
-- The send path of a session: `SendPacket` and `SendAsync` of JunCore/network/Session.h,
-- `SendAsyncImpl` of Session.cpp and `HandleSendComplete` of IOCPManager.cpp. Every thread that is
-- inside one of these functions is a `Sender`, whose constructor says what it does next; a step of a
-- sender makes one access to the shared state. The `LFQueue` is the list of its nodes and the counter
-- that `Enqueue` raises after it has linked a node and that `Dequeue` lowers before it takes one off. A packet is the list of its bytes, as
-- `SerializeUnifiedPacket` of module Protocol makes them.
pub mod Weights
pub mod Ownership
pub mod Wakeup
pub mod Order
pub mod Bounds
pub mod Alone
mod Tests
use jun_core_v.Common.{
  ℕ, zero, suc, ◌+◌, ◌≡◌, List, [], ◌∷◌, ◌++◌, Bool, true, false, ◌||◌, ltb, if◌then◌else◌, Option,
  none, some, length,
}
use jun_core_v.Session.{is_invalid}

-- `MAX_SEND_MSG`
abbrev pub max_send_msg : ℕ
max_send_msg = 200

abbrev pub Packet : Type 0
Packet = List ℕ

-- `send_packet_arr` holds the `send_packet_count_` packets being sent. Beyond the fields of the class,
-- `outstanding` counts the sends whose completion has not been taken, `failed` says that one was
-- completed with no bytes, and `accepted` and `on_wire` record the packets that were put in the queue
-- and those that were given to `WSASend`.
pub record SendState : Type 0 where
  pub sock : Option ℕ
  pub send_q : List Packet
  pub use_count : ℕ
  pub send_flag : Bool
  pub pending_disconnect : Bool
  pub send_packet_arr : List Packet
  pub outstanding : ℕ
  pub failed : Bool
  pub accepted : List Packet
  pub on_wire : List Packet

-- After `Set` with a socket.
abbrev pub fresh : ℕ → SendState
fresh sock = record {
  sock = some sock;
  send_q = [];
  use_count = 0;
  send_flag = false;
  pending_disconnect = false;
  send_packet_arr = [];
  outstanding = 0;
  failed = false;
  accepted = [];
  on_wire = [];
}

pub data Sender : Type 0 where
  -- `SendPacket`: the checks and the two parts of `Enqueue`
  checking linking : Packet → Sender
  counting : Sender
  -- `SendAsync`: the exchange, the count, and what follows when there is nothing to send
  exchanging holding lowering rechecking : Sender
  -- `SendAsyncImpl`: the size, the loop with the rounds that are left and the packets prepared, the
  -- call of `WSASend`, and the call of `Disconnect`
  sizing : Sender
  collecting dequeuing claiming : ℕ → List Packet → Sender
  prepared : List Packet → Sender
  giving_up : Sender
  -- `HandleSendComplete`
  finishing unflagging looking completing : Sender
  -- the use of a null pointer, where `Dequeue` has found nothing
  crashing : List Packet → Sender

-- `send_q_.Dequeue(&send_packet_arr_[i])`: `InterlockedDecrement`, whose result is the answer. If it
-- finds nothing, the null pointer is used.
unfoldable pub dequeue_packet : ℕ → List Packet → SendState → SendState × Sender
dequeue_packet rounds packets s = elim s.use_count [
  | zero ↦ (s, crashing packets)
  | suc n ↦ (record s { use_count = n }, claiming rounds packets)
]

-- Then it takes a node off, and the pointer is used twice. With no node there it spins.
unfoldable pub claim_packet : ℕ → List Packet → SendState → SendState × Sender
claim_packet rounds packets s = elim s.send_q [
  | [] ↦ (s, claiming rounds packets)
  | packet ∷ rest ↦ (record s { send_q = rest }, collecting rounds (packets ++ (packet ∷ [])))
]

-- The next access of a thread: the new state, and where that thread stands then, if it is not done.
-- A send that `WSASend` refuses is completed with no bytes, by `PostQueuedCompletionStatus`.
unfoldable pub sender_step : Sender → SendState → SendState × List Sender
sender_step (checking packet) s =
    if is_invalid s.sock || s.pending_disconnect then (s, []) else (s, linking packet ∷ [])
sender_step (linking packet) s = (
  record s { send_q = s.send_q ++ (packet ∷ []); accepted = s.accepted ++ (packet ∷ []) },
  counting ∷ [],
)
sender_step counting s = (record s { use_count = suc s.use_count }, exchanging ∷ [])
sender_step exchanging s =
    if s.send_flag then (s, []) else (record s { send_flag = true }, holding ∷ [])
sender_step holding s = elim s.use_count [ zero ↦ (s, lowering ∷ []) | suc n ↦ (s, sizing ∷ []) ]
sender_step lowering s = (record s { send_flag = false }, rechecking ∷ [])
sender_step rechecking s = elim s.use_count [ zero ↦ (s, []) | suc n ↦ (s, exchanging ∷ []) ]
sender_step sizing s =
    if ltb max_send_msg s.use_count
    then (s, giving_up ∷ [])
    else (s, collecting max_send_msg [] ∷ [])
sender_step (collecting zero packets) s = (s, prepared packets ∷ [])
sender_step (collecting (suc rounds) packets) s = elim s.use_count [
  | zero ↦ (s, prepared packets ∷ [])
  | suc n ↦ (s, dequeuing rounds packets ∷ [])
]
sender_step (dequeuing rounds packets) s =
    let (s', sender) = dequeue_packet rounds packets s in (s', sender ∷ [])
sender_step (claiming rounds packets) s =
    let (s', sender) = claim_packet rounds packets s in (s', sender ∷ [])
sender_step (prepared []) s = (s, giving_up ∷ [])
sender_step (prepared (packet ∷ packets)) s = (
  record s {
    send_packet_arr = packet ∷ packets;
    outstanding = suc s.outstanding;
    on_wire = s.on_wire ++ (packet ∷ packets);
  },
  [],
)
sender_step giving_up s = (record s { pending_disconnect = true }, [])
sender_step finishing s = (record s { send_packet_arr = [] }, unflagging ∷ [])
sender_step unflagging s = (record s { send_flag = false }, looking ∷ [])
sender_step looking s = if s.pending_disconnect then (s, []) else (s, completing ∷ [])
sender_step completing s = elim s.use_count [ zero ↦ (s, []) | suc n ↦ (s, exchanging ∷ []) ]
sender_step (crashing packets) s = (s, crashing packets ∷ [])

-- The session and the threads inside its functions.
abbrev pub SendSystem : Type 0
SendSystem = SendState × List Sender

pub data SendStep : SendSystem → SendSystem → Type 0 where
  act :
      (s : SendState) (before : List Sender) (sender : Sender) (after : List Sender)
      → SendStep
          (s, before ++ (sender ∷ after))
          ((sender_step sender s).0, (before ++ (sender_step sender s).1) ++ after)
  call_send_packet :
      (s : SendState) (senders : List Sender) (packet : Packet)
      → SendStep (s, senders) (s, checking packet ∷ senders)
  call_disconnect :
      (s : SendState) (senders : List Sender)
      → SendStep (s, senders) (record s { pending_disconnect = true }, senders)
  -- A worker thread takes the completion of a send that transferred bytes.
  complete :
      (s : SendState) (senders : List Sender) (n : ℕ)
      → s.outstanding ≡ suc n
      → SendStep (s, senders) (record s { outstanding = n }, finishing ∷ senders)
  -- It drops one that transferred none.
  complete_failed :
      (s : SendState) (senders : List Sender) (n : ℕ)
      → s.outstanding ≡ suc n
      → SendStep (s, senders) (record s { outstanding = n; failed = true }, senders)

pub data SendReachable : SendSystem → Type 0 where
  start : (sock : ℕ) → SendReachable (fresh sock, [])
  next : (p p' : SendSystem) → SendReachable p → SendStep p p' → SendReachable p'
