-- ===== src/NetBase/Tests.antt =====
-- A message on its way from one program to another.
use jun_core_v.Common.{
  ℕ, ◌≡◌, refl, List, [], ◌∷◌, Bool, true, false, ◌==◌, if◌then◌else◌, Option, none, some, take,
  drop, arith,
}
use jun_core_v.Common.Memory.{write_bytes}
use jun_core_v.Common.LittleEndian.{le_bytes}
use jun_core_v.RingBuffer.{get_use_size}
use jun_core_v.RingBuffer.Circle.{circle}
use jun_core_v.RingBuffer.Enqueue.{contents}
use jun_core_v.Protocol.{Message, header_bytes}
use jun_core_v.Protocol.Fnv.{fnv1a}
use jun_core_v.Session.{Session}
use jun_core_v.SendPath.Alone.{sent, sent-Reachable}
use jun_core_v.Recv.{on_packet_received}
use jun_core_v.Recv.Frames.{deliver}
use jun_core_v.Recv.Stream.{Kernel, IsScatter, receive_all}
use jun_core_v.User.{new_user, session_packet, is_connected}
use jun_core_v.NetBase.{NetBase, find_handler, new_net_base, register_packet_handler}
use jun_core_v.NetBase.Registry.{received-registered}
use jun_core_v.NetBase.Delivery.{packets_of, sent_is_delivered}

abbrev copy : Kernel
copy ((a, n) ∷ (b, k) ∷ []) bytes m = write_bytes (write_bytes m a (take n bytes)) b (drop n bytes)
copy _ bytes m = m

copy-IsScatter : IsScatter copy
copy-IsScatter a n b k bytes m h = refl

-- A message of type "a" that serialises to two bytes.
abbrev greeting : Message
greeting = record {
  full_name = b'a' ∷ [];
  byte_size_long = 2;
  serialize_to_array = λ size. if size == 2 then some (5 ∷ 6 ∷ []) else none;
}

abbrev packet : List ℕ
packet = 10 ∷ 0 ∷ 0 ∷ 0 ∷ 44 ∷ 41 ∷ 12 ∷ 228 ∷ 5 ∷ 6 ∷ []

abbrev parse : List ℕ → Option (List ℕ)
parse bytes = some bytes

-- The type of the messages is that of their bytes.
abbrev server : NetBase (List (List ℕ))
server =
    register_packet_handler {App = List (List ℕ)} (b'a' ∷ []) parse
      (λ user message app. (message ∷ app, false)) new_net_base

abbrev receiver : Session
receiver = record {
  sock = some 1;
  ip = 0;
  port = 0;
  send_flag = false;
  pending_disconnect = false;
  send_q = [];
  send_packet_arr = [];
  recv_buf = record {
    memory = λ a. 0;
    begin = 8192;
    end = 16384;
    front = 8192;
    rear = 8192;
    read_pos = 8193;
    write_pos = 8193;
  };
  last_recv_time = 0;
  engine = some 4;
  iocp_handle = some 2;
  owner_user = some 3;
}

greeting_packet : session_packet greeting ≡ some packet
unfolding session_packet fnv1a header_bytes le_bytes
greeting_packet = refl

-- The handler does not disconnect the session.
greeting_kept :
    (deliver
      (λ id. find_handler id server.packet_handlers)
      (some 3)
      false
      (packets_of ((greeting, 5 ∷ 6 ∷ []) ∷ []))
      []).1
    ≡ false
unfolding deliver on_packet_received find_handler register_packet_handler new_net_base fnv1a
greeting_kept = refl

sent_is_delivered_example :
    let handlers = λ (id : ℕ). find_handler id server.packet_handlers in
    let (r', app') =
      receive_all handlers copy true 5 ((10 ∷ 0 ∷ 0 ∷ []) ∷ drop 3 packet ∷ []) receiver [] in
    (contents r'.recv_buf ≡ [])
    × ((app', r'.pending_disconnect)
        ≡ deliver handlers (some 3) false (packets_of ((greeting, 5 ∷ 6 ∷ []) ∷ [])) [])
unfolding get_use_size circle
sent_is_delivered_example =
    sent_is_delivered server copy copy-IsScatter 4000 4000 (omega arith) (omega arith) 5
      (sent packet) ((greeting, 5 ∷ 6 ∷ []) ∷ []) ((10 ∷ 0 ∷ 0 ∷ []) ∷ drop 3 packet ∷ []) receiver
      [] 4 1 (sent-Reachable packet) refl refl refl
      (record { writes = refl; size = refl }, greeting_packet, tt) refl (omega arith) refl refl refl
      greeting_kept (omega arith) (omega arith)

received-registered_example :
    on_packet_received
      (λ id. find_handler id server.packet_handlers)
      (some 3)
      3826002220
      (5 ∷ [])
      []
    ≡ (if fnv1a (b'a' ∷ []) == 3826002220
        then elim (parse (5 ∷ [])) as (λ o. List (List ℕ) × Bool) [
          | none ↦ ([], false)
          | some message ↦ (message ∷ [], false)
        ]
        else on_packet_received
            (λ id. find_handler {App = List (List ℕ)} id new_net_base.packet_handlers)
            (some 3)
            3826002220
            (5 ∷ [])
            [])
received-registered_example =
    received-registered (b'a' ∷ []) parse (λ user message app. (message ∷ app, false)) new_net_base
      3 3826002220 (5 ∷ []) []

not_connected : is_connected (new_user none) ≡ false
unfolding is_connected new_user
not_connected = refl
