-- ===== src/Protocol/Tests.antt =====
-- Packets at concrete inputs.
use jun_core_v.Common.{
  ℕ, ◌≡◌, refl, List, [], ◌∷◌, true, Option, none, some, if◌then◌else◌, ◌==◌, length, arith,
}
use jun_core_v.Common.LittleEndian.{le_bytes}
use jun_core_v.Protocol.{
  Message, IsSerializable, serialize_unified_packet, process_unified_packet, header_bytes,
}
use jun_core_v.Protocol.Fnv.{fnv1a, make_protocol_code}
use jun_core_v.Protocol.Roundtrip.{process-serialize}

-- The hash of "a" in the published test vectors of FNV-1a.
fnv1a_a : fnv1a (b'a' ∷ []) ≡ 0xe40c292c
unfolding fnv1a
fnv1a_a = refl

-- `PROTOCOL_CODE`
abbrev protocol_code : ℕ
protocol_code = make_protocol_code 1 1 1

-- A message of type "a" that serialises to two bytes.
abbrev greeting : Message
greeting = record {
  full_name = b'a' ∷ [];
  byte_size_long = 2;
  serialize_to_array = λ size. if size == 2 then some (5 ∷ 6 ∷ []) else none;
}

greeting-IsSerializable : IsSerializable greeting (5 ∷ 6 ∷ [])
greeting-IsSerializable = record { writes = refl; size = refl }

greeting_packet :
    serialize_unified_packet greeting ≡ 10 ∷ 0 ∷ 0 ∷ 0 ∷ 44 ∷ 41 ∷ 12 ∷ 228 ∷ 5 ∷ 6 ∷ []
unfolding serialize_unified_packet header_bytes le_bytes fnv1a
greeting_packet = refl

abbrev log_payload : ℕ → Option (List ℕ → List (List ℕ) → List (List ℕ))
log_payload id = some (λ payload app. payload ∷ app)

process-serialize_example :
    let packet = serialize_unified_packet greeting in
    process_unified_packet packet (length packet) log_payload [] ≡ (true, (5 ∷ 6 ∷ []) ∷ [])
process-serialize_example =
    process-serialize greeting log_payload [] greeting-IsSerializable (omega arith)
