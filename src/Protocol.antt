-- ===== src/Protocol.antt =====
-- JunCore/protocol/UnifiedPacketHeader.h: the eight-byte header in front of every packet, and the
-- functions that build and take apart a packet. A protobuf message is a parameter.
pub mod Fnv
pub mod Roundtrip
mod Tests
use jun_core_v.Common.{
  ℕ, ◌+◌, ◌-◌, ◌*◌, ◌%◌, ◌^◌, ◌≡◌, List, ◌++◌, Bool, true, false, ◌&&◌, ◌||◌, not, Option, none,
  some, leb, ltb, ◌==◌, if◌then◌else◌, length, take, drop, replicate,
}
use jun_core_v.Common.LittleEndian.{le_bytes, le_value}
use Fnv.{fnv1a}

pub record UnifiedPacketHeader : Type 0 where
  pub length : ℕ
  pub packet_id : ℕ

abbrev pub unified_header_size : ℕ
unified_header_size = 8

abbrev pub max_packet_size : ℕ
max_packet_size = 4 * 1024 * 1024

abbrev pub min_packet_size : ℕ
min_packet_size = unified_header_size

unfoldable pub is_valid_packet_size : ℕ → Bool
is_valid_packet_size size = leb min_packet_size size && leb size max_packet_size

abbrev pub initialize_packet_header : ℕ → ℕ → UnifiedPacketHeader
initialize_packet_header total_length id = record { length = total_length; packet_id = id }

-- The header object as it lies in a packet buffer.
unfoldable pub header_bytes : UnifiedPacketHeader → List ℕ
header_bytes h = le_bytes 4 h.length ++ le_bytes 4 h.packet_id

-- `reinterpret_cast<const UnifiedPacketHeader*>`
unfoldable pub header_of : List ℕ → UnifiedPacketHeader
header_of bytes = record {
  length = le_value (take 4 bytes);
  packet_id = le_value (take 4 (drop 4 bytes));
}

-- A protobuf message: its full name, its serialised size, and what `SerializeToArray` writes at
-- that size, if it succeeds.
pub record Message : Type 0 where
  pub full_name : List ℕ
  pub byte_size_long : ℕ
  pub serialize_to_array : ℕ → Option (List ℕ)

-- The documented behaviour of `SerializeToArray`: it writes as many bytes as it was given room for.
pub record IsSerializable (msg : Message) (payload : List ℕ) : Type 0 where
  pub writes : msg.serialize_to_array msg.byte_size_long ≡ some payload
  pub size : length payload ≡ msg.byte_size_long

abbrev pub u32 : ℕ → ℕ
u32 n = n % 2 ^ 32

-- The result of `SerializeToArray` is not looked at: if it fails, the payload stays zero.
unfoldable pub serialize_unified_packet : Message → List ℕ
serialize_unified_packet msg =
    let payload_size = msg.byte_size_long in
    let total_packet_size = unified_header_size + payload_size in
    let header = initialize_packet_header (u32 total_packet_size) (fnv1a msg.full_name) in
    header_bytes header ++ elim (msg.serialize_to_array payload_size) [
      | some payload ↦ payload
      | none ↦ replicate payload_size 0
    ]

-- `handlers` is the map from packet ids to handlers; a handler acts on the state of the
-- application. The `Bool` is the result of the call.
unfoldable pub process_unified_packet :
    {App : Type 0} → List ℕ → ℕ → (ℕ → Option (List ℕ → App → App)) → App → Bool × App
process_unified_packet packet_data packet_size handlers app =
    let header = header_of packet_data in
    if ltb packet_size unified_header_size
    then (false, app)
    else (if not (is_valid_packet_size header.length) || not (header.length == packet_size)
        then (false, app)
        else elim (handlers header.packet_id) [
          | none ↦ (false, app)
          | some handler ↦ (true, handler (drop unified_header_size packet_data) app)
        ])
