-- ===== src/User.antt =====
-- JunCore/network/User.h, and the making of a packet in `SendPacket` of Session.h.
use jun_core_v.Common.{
  ℕ, ◌+◌, List, [], ◌++◌, Bool, false, not, ◌||◌, ◌&&◌, Option, none, some, if◌then◌else◌,
}
use jun_core_v.Protocol.{Message, header_bytes, initialize_packet_header, unified_header_size, u32}
use jun_core_v.Protocol.Fnv.{fnv1a}
use jun_core_v.Session.{Session, Call, is_invalid, disconnect}

-- The packet that `SendPacket` makes of a message, if the message can be serialised.
unfoldable pub session_packet : Message → Option (List ℕ)
session_packet msg =
    let payload_size = msg.byte_size_long in
    let header =
      initialize_packet_header (u32 (unified_header_size + payload_size)) (fnv1a msg.full_name) in
    elim (msg.serialize_to_array payload_size) [
      | none ↦ none
      | some payload ↦ some (header_bytes header ++ payload)
    ]

-- `Session::SendPacket`: the packet that it puts in the queue, if it returns true.
unfoldable pub session_send : Message → Session → Option (List ℕ)
unfolding session_packet
session_send msg s = if is_invalid s.sock || s.pending_disconnect then none else session_packet msg

-- `session` is what `lock` gives. The coordinates are numbers that the class hands through.
pub record User : Type 0 where
  pub session : Option Session
  pub player : Option ℕ
  pub player_id : ℕ
  pub last_scene_id : ℕ
  pub spawn : ℕ × ℕ × ℕ

unfoldable pub new_user : Option Session → User
new_user session = record {
  session = session;
  player = none;
  player_id = 0;
  last_scene_id = 0;
  spawn = (0, 0, 0);
}

unfoldable pub send_packet : Message → User → Option (List ℕ)
unfolding session_send
send_packet msg u = elim u.session [ none ↦ none | some s ↦ session_send msg s ]

unfoldable pub is_connected : User → Bool
is_connected u = elim u.session [
  | none ↦ false
  | some s ↦ not (is_invalid s.sock) && not s.pending_disconnect
]

unfoldable pub user_disconnect : User → User × List Call
user_disconnect u = elim u.session [
  | none ↦ (u, [])
  | some s ↦ (record u { session = some (disconnect s).0 }, (disconnect s).1)
]

-- `print` is `inet_ntop`; no session has the empty text.
unfoldable pub get_remote_ip : (ℕ → List ℕ) → User → List ℕ
get_remote_ip print u = elim u.session [ none ↦ [] | some s ↦ print s.ip ]

unfoldable pub get_remote_port : User → ℕ
get_remote_port u = elim u.session [ none ↦ 0 | some s ↦ s.port ]

unfoldable pub set_player : Option ℕ → User → User
set_player player u = record u { player = player }

unfoldable pub clear_player : User → User
clear_player u = record u { player = none }

unfoldable pub set_player_id : ℕ → User → User
set_player_id player_id u = record u { player_id = player_id }

unfoldable pub set_last_scene_id : ℕ → User → User
set_last_scene_id scene_id u = record u { last_scene_id = scene_id }

unfoldable pub set_spawn_pos : ℕ → ℕ → ℕ → User → User
set_spawn_pos x y z u = record u { spawn = (x, y, z) }
