-- ===== src/Recv/Assembly.antt =====
-- `HandleRecvComplete` cuts the byte stream into its packets.
use jun_core_v.Common.{
  ℕ, ◌+◌, ◌≤◌, ◌<◌, min, ◌≡◌, sym, ap, ap₂, ◌∙◌, inl, inr, List, ◌++◌, length, take, drop,
  append_assoc, length-append, take-append, drop-append, arith,
}
use jun_core_v.Common.LittleEndian.{le_value}
use jun_core_v.RingBuffer.{RingBuffer, get_use_size, peek, dequeue}
use jun_core_v.RingBuffer.Inv.{IsValid, use_size-add-free_size}
use jun_core_v.RingBuffer.Enqueue.{contents}
use jun_core_v.RingBuffer.Dequeue.{Taken, length-contents, dequeue_lem, peek-dequeue}
use jun_core_v.Protocol.{
  UnifiedPacketHeader, initialize_packet_header, is_valid_packet_size, header_of,
}
use jun_core_v.Protocol.Roundtrip.{
  packet_bytes, length-packet_bytes, drop-packet_bytes, length-field, header_of-header_bytes,
}
use jun_core_v.Recv.{packet, incomplete, extract, next_packet}
use jun_core_v.Recv.Frames.{IsPartial}

-- The length field at the head of the ring.
pub peek_length :
    {r : RingBuffer}
    → IsValid r
    → 4 ≤ get_use_size r
    → le_value (peek 4 r).1 ≡ le_value (take 4 (contents r))
peek_length {r} v h =
    let (n, out, _, _) = dequeue_lem 4 v in
    ap (λ (p : ℕ × List ℕ). le_value p.1) (peek-dequeue 4 v)
    ∙ ap le_value (out ∙ ap (λ k. take k (contents r)) (n ∙ four))
  where
    four : min 4 (get_use_size r) ≡ 4
    four = omega arith

-- What taking the packet at the head of the ring gives.
pub record Extracted (r : RingBuffer) (id : ℕ) (payload rest : List ℕ) : Type 0 where
  pub enough : 8 + length payload ≤ get_use_size r
  pub small : get_use_size r ≤ 8191
  pub packet_len : le_value (peek 4 r).1 ≡ 8 + length payload
  pub left : RingBuffer
  pub valid : IsValid left
  pub held : contents left ≡ rest
  pub result : extract (8 + length payload) r ≡ packet left id payload

pub extract-Extracted :
    {r : RingBuffer} (id : ℕ) (payload rest : List ℕ)
    → IsValid r
    → id < 4294967296
    → contents r ≡ packet_bytes id payload ++ rest
    → Extracted r id payload rest
extract-Extracted {r} id payload rest v word e = record {
  enough = enough;
  small = small;
  packet_len =
      peek_length v (omega (arith, enough))
      ∙ ap (λ bs. le_value (take 4 bs)) (e ∙ append_assoc _ payload rest)
      ∙ length-field header (payload ++ rest) (omega (arith, enough, small));
  left = (dequeue size r).2;
  valid = got.3.valid;
  held = got.2 ∙ ap₂ drop n e ∙ drop-append size (packet_bytes id payload) rest len;
  result =
      unfold extract in
      (ap (λ p. packet (dequeue size r).2 (header_of p).packet_id (drop 8 p)) taken
        ∙ ap₂ (λ (h : UnifiedPacketHeader) q. packet (dequeue size r).2 h.packet_id q)
            (header_of-header_bytes header payload (omega (arith, enough, small)) word)
            (drop-packet_bytes id payload));
}
  where
    size : ℕ
    size = 8 + length payload

    header : UnifiedPacketHeader
    header = initialize_packet_header size id

    len : size ≡ length (packet_bytes id payload)
    len = sym (length-packet_bytes id payload)

    enough : size ≤ get_use_size r
    enough =
        omega
          (arith, length-contents r, ap length e, length-append (packet_bytes id payload) rest, len)

    small : get_use_size r ≤ 8191
    small = omega (arith, use_size-add-free_size v)

    got :
        let (n, out, r') = dequeue size r in
        (n ≡ min size (get_use_size r))
        × (out ≡ take n (contents r))
        × (contents r' ≡ drop n (contents r))
        × Taken r out r'
    got = dequeue_lem size v

    n : (dequeue size r).0 ≡ size
    n = omega (arith, got.0, enough)

    taken : (dequeue size r).1 ≡ packet_bytes id payload
    taken = got.1 ∙ ap₂ take n e ∙ take-append size (packet_bytes id payload) rest len

-- A whole packet at the head is found and taken out.
pub next_packet-Extracted :
    {r : RingBuffer} {id : ℕ} {payload rest : List ℕ} (x : Extracted r id payload rest)
    → next_packet r ≡ packet x.left id payload
unfolding next_packet is_valid_packet_size
next_packet-Extracted {r} {id} {payload} {rest} x = ground (arith, x.packet_len, x.result)

-- At the start of a packet nothing is taken out.
pub next_packet_partial :
    {r : RingBuffer} → IsValid r → IsPartial (contents r) → next_packet r ≡ incomplete
unfolding next_packet is_valid_packet_size
next_packet_partial {r} v (inl short) = ground (arith, length-contents r)
next_packet_partial {r} v (inr longer) = ground (arith, length-contents r, peek_length v)
