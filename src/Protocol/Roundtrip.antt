-- ===== src/Protocol/Roundtrip.antt =====
-- A packet that was built is taken apart into the message that it was built from.
use jun_core_v.Common.{
  ℕ, ◌+◌, ◌^◌, ◌≤◌, ◌<◌, ◌≡◌, ◌⊎◌, ◌≢◌, sym, ap, ◌∙◌, List, ◌++◌, true, false, Option, none, some,
  length, take, drop, append_assoc, length-append, take-append, drop-append, arith,
}
use jun_core_v.Common.LittleEndian.{le_bytes, le_value, length-le_bytes, le_value-le_bytes}
use jun_core_v.Protocol.{
  UnifiedPacketHeader, max_packet_size, is_valid_packet_size, initialize_packet_header,
  header_bytes, header_of, Message, IsSerializable, serialize_unified_packet,
  process_unified_packet,
}
use jun_core_v.Protocol.Fnv.{fnv1a, fnv1a-lt}

pub length-header_bytes : (h : UnifiedPacketHeader) → length (header_bytes h) ≡ 8
unfolding header_bytes
length-header_bytes h = omega (
  arith,
  length-append (le_bytes 4 h.length) (le_bytes 4 h.packet_id),
  length-le_bytes 4 h.length,
  length-le_bytes 4 h.packet_id,
)

-- The first four bytes are the length, also where they are all that is looked at.
pub take-header_bytes :
    (h : UnifiedPacketHeader) (rest : List ℕ)
    → take 4 (header_bytes h ++ rest) ≡ le_bytes 4 h.length
unfolding header_bytes
take-header_bytes h rest =
    ap (take 4) (append_assoc (le_bytes 4 h.length) (le_bytes 4 h.packet_id) rest)
    ∙ take-append 4 (le_bytes 4 h.length) _ (sym (length-le_bytes 4 h.length))

pub length-field :
    (h : UnifiedPacketHeader) (rest : List ℕ)
    → h.length < 2 ^ 32
    → le_value (take 4 (header_bytes h ++ rest)) ≡ h.length
length-field h rest small =
    ap le_value (take-header_bytes h rest) ∙ le_value-le_bytes 4 h.length small

-- A header is read back from the bytes that hold it, whatever follows.
pub header_of-header_bytes :
    (h : UnifiedPacketHeader) (rest : List ℕ)
    → h.length < 2 ^ 32
    → h.packet_id < 2 ^ 32
    → header_of (header_bytes h ++ rest) ≡ h
unfolding header_of
header_of-header_bytes h rest l i =
    λ j. record { length = length-field h rest l j; packet_id = id j }
  where
    behind : drop 4 (header_bytes h ++ rest) ≡ le_bytes 4 h.packet_id ++ rest
    behind =
        unfold header_bytes in
        (ap (drop 4) (append_assoc (le_bytes 4 h.length) (le_bytes 4 h.packet_id) rest)
          ∙ drop-append 4 (le_bytes 4 h.length) _ (sym (length-le_bytes 4 h.length)))

    id : le_value (take 4 (drop 4 (header_bytes h ++ rest))) ≡ h.packet_id
    id =
        ap (λ bs. le_value (take 4 bs)) behind
        ∙ ap le_value
            (take-append 4 (le_bytes 4 h.packet_id) rest (sym (length-le_bytes 4 h.packet_id)))
        ∙ le_value-le_bytes 4 h.packet_id i

-- The bytes of the packet with the given id and payload.
abbrev pub packet_bytes : ℕ → List ℕ → List ℕ
packet_bytes id payload = header_bytes (initialize_packet_header (8 + length payload) id) ++ payload

pub length-packet_bytes :
    (id : ℕ) (payload : List ℕ) → length (packet_bytes id payload) ≡ 8 + length payload
length-packet_bytes id payload =
    length-append (header_bytes header) payload
    ∙ ap (λ n. n + length payload) (length-header_bytes header)
  where
    header : UnifiedPacketHeader
    header = initialize_packet_header (8 + length payload) id

pub drop-packet_bytes : (id : ℕ) (payload : List ℕ) → drop 8 (packet_bytes id payload) ≡ payload
drop-packet_bytes id payload = drop-append 8 _ payload (sym (length-header_bytes _))

-- What `SerializeUnifiedPacket` returns.
pub serialize_unified_packet-eq :
    (msg : Message) {payload : List ℕ}
    → IsSerializable msg payload
    → 8 + length payload ≤ max_packet_size
    → serialize_unified_packet msg ≡ packet_bytes (fnv1a msg.full_name) payload
unfolding serialize_unified_packet
serialize_unified_packet-eq msg {payload} s fits = rw s.writes (
    ap (λ n. header_bytes (initialize_packet_header n (fnv1a msg.full_name)) ++ payload)
      (omega (arith, s.size)))

process-packet_bytes :
    {App : Type 0} (id : ℕ) (payload : List ℕ) (handlers : ℕ → Option (List ℕ → App → App))
    (app : App)
    → id < 2 ^ 32
    → 8 + length payload ≤ max_packet_size
    → process_unified_packet
        (packet_bytes id payload)
        (length (packet_bytes id payload))
        handlers
        app
      ≡ elim (handlers id) [ none ↦ (false, app) | some handler ↦ (true, handler payload app) ]
unfolding process_unified_packet is_valid_packet_size
process-packet_bytes id payload handlers app small fits = ground (
  arith,
  header_of-header_bytes (initialize_packet_header (8 + length payload) id) payload (omega arith)
      small,
  length-packet_bytes id payload,
  drop-packet_bytes id payload,
)

-- Every message that fits is delivered: processing a serialised message gives its payload to the
-- handler under the hash of its type name, and fails, changing nothing, exactly if there is none.
pub process-serialize :
    {App : Type 0} (msg : Message) {payload : List ℕ} (handlers : ℕ → Option (List ℕ → App → App))
    (app : App)
    → IsSerializable msg payload
    → 8 + length payload ≤ max_packet_size
    → let packet = serialize_unified_packet msg in
      process_unified_packet packet (length packet) handlers app
      ≡ elim (handlers (fnv1a msg.full_name)) [
        | none ↦ (false, app)
        | some handler ↦ (true, handler payload app)
      ]
process-serialize msg {payload} handlers app s fits =
    rw (serialize_unified_packet-eq msg s fits) (
      process-packet_bytes (fnv1a msg.full_name) payload handlers app (fnv1a-lt msg.full_name) fits)

-- A block that is shorter than a header, or whose length field is not its size, or is out of range,
-- is refused, and no handler runs.
pub process_refuses :
    {App : Type 0} (packet_data : List ℕ) (packet_size : ℕ)
    (handlers : ℕ → Option (List ℕ → App → App)) (app : App)
    → (packet_size < 8)
      ⊎ ((header_of packet_data).length ≢ packet_size)
      ⊎ (max_packet_size < packet_size)
    → process_unified_packet packet_data packet_size handlers app ≡ (false, app)
unfolding process_unified_packet is_valid_packet_size
process_refuses packet_data packet_size handlers app bad = ground arith
