-- ===== src/Recv.antt =====
-- JunCore/network/IOCPManager.cpp, `HandleRecvComplete`, and the dispatch of a packet by
-- `OnPacketReceived` of JunCore/network/NetBase.h. The packet handlers belong to the application.
pub mod Frames
pub mod Assembly
pub mod Delivery
pub mod Split
pub mod Stream
pub mod Limits
pub mod Rearm
mod Tests
use jun_core_v.Common.{
  ℕ, zero, suc, ◌-◌, ◌%◌, ◌^◌, List, Bool, true, false, ◌||◌, not, Option, none, some, ltb,
  if◌then◌else◌, drop,
}
use jun_core_v.Common.LittleEndian.{le_value}
use jun_core_v.RingBuffer.{RingBuffer, move_rear, get_use_size, peek, dequeue}
use jun_core_v.Protocol.{unified_header_size, is_valid_packet_size, header_of}
use jun_core_v.Session.{Session, Call, recv_async}

-- A handler gets the user of the session and the payload. It changes the state of the application,
-- and the `Bool` says whether it disconnected the session.
abbrev pub Handler : Type 0 → Type 0
Handler App = ℕ → List ℕ → App → App × Bool

abbrev pub max_loop_count : ℕ
max_loop_count = 1000

-- How `HandleRecvComplete` ends.
pub data Outcome : Type 0 where
  -- The loop ended at an incomplete packet; the next receive was posted, or was refused.
  receiving : Bool → List Call → Outcome
  -- The loop ended at an incomplete packet, but the session is being disconnected.
  disconnecting : Outcome
  loop_count_reached invalid_packet_length no_engine : Outcome

-- What the loop finds at the head of the buffer.
pub data Head : Type 0 where
  incomplete invalid : Head
  -- A whole packet: the buffer without it, its id and its payload.
  packet : RingBuffer → ℕ → List ℕ → Head

pub extract : ℕ → RingBuffer → Head
extract packet_len recv_buf =
    let (_, bytes, recv_buf') = dequeue packet_len recv_buf in
    packet recv_buf' (header_of bytes).packet_id (drop unified_header_size bytes)

pub next_packet : RingBuffer → Head
next_packet recv_buf =
    let recv_byte = get_use_size recv_buf in
    let packet_len = le_value (peek 4 recv_buf).1 in
    if ltb recv_byte unified_header_size
    then incomplete
    else (if not (is_valid_packet_size packet_len)
        then invalid
        else (if ltb recv_byte packet_len then incomplete else extract packet_len recv_buf))

pub after_loop : Bool → Session → Outcome
after_loop posted s =
    if s.pending_disconnect
    then disconnecting
    else (let (result, calls) = recv_async posted s in receiving result calls)

module _ {App : Type 0} (handlers : ℕ → Option (Handler App)) where
  -- `OnPacketReceived`. A packet with no handler, or of a session with no user, is dropped.
  unfoldable pub on_packet_received : Option ℕ → ℕ → List ℕ → App → App × Bool
  on_packet_received owner_user packet_id payload app = elim (handlers packet_id) [
    | none ↦ (app, false)
    | some handler ↦ elim owner_user [ none ↦ (app, false) | some user ↦ handler user payload app ]
  ]

  -- The loop, with the rounds that are left of `MAX_LOOP_COUNT`.
  pub recv_loop : Bool → ℕ → Session → App → Outcome × Session × App
  recv_loop posted zero s app = (loop_count_reached, s, app)
  recv_loop posted (suc rounds) s app = elim (next_packet s.recv_buf) [
    | incomplete ↦ (after_loop posted s, s, app)
    | invalid ↦ (invalid_packet_length, s, app)
    | packet recv_buf packet_id payload ↦ elim s.engine [
      | none ↦ (no_engine, record s { recv_buf = recv_buf }, app)
      | some engine ↦
          let (app', disconnected) = on_packet_received s.owner_user packet_id payload app in
          recv_loop posted rounds
            (record s {
              recv_buf = recv_buf;
              pending_disconnect = s.pending_disconnect || disconnected;
            })
            app'
    ]
  ]

  -- A completion of `io_size` bytes at the tick count `now`.
  pub handle_recv_complete : Bool → ℕ → ℕ → Session → App → Outcome × Session × App
  handle_recv_complete posted io_size now s app =
      recv_loop posted max_loop_count
        (record s { recv_buf = move_rear io_size s.recv_buf; last_recv_time = now % 2 ^ 32 }) app
