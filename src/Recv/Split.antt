-- ===== src/Recv/Split.antt =====
-- Where a stream of packets is cut, what stands before the cut is whole packets and the start of
-- one.
use jun_core_v.Common.{
  ℕ, ◌+◌, ◌≤◌, ◌<◌, ◌≡◌, refl, sym, subst, ap, ap₂, ◌∙◌, inl, inr, List, [], ◌∷◌, ◌++◌, length,
  take, drop, take-append-drop, append_assoc, length-append, take-append, drop-append,
  take-append_le, drop-append_le, dec_lt, arith,
}
use jun_core_v.Common.LittleEndian.{le_value}
use jun_core_v.Protocol.{
  UnifiedPacketHeader, initialize_packet_header, header_bytes, max_packet_size,
}
use jun_core_v.Protocol.Roundtrip.{packet_bytes, length-packet_bytes, length-field}
use jun_core_v.Recv.Frames.{Packet, stream, IsPartial}

-- No packet is longer than `bound`.
abbrev pub AreBounded : ℕ → List Packet → Type 0
AreBounded bound [] = Unit {0}
AreBounded bound ((_, payload) ∷ ps) = (8 + length payload ≤ bound) × AreBounded bound ps

pub record Cut (bound : ℕ) (ps : List Packet) (a b rest : List ℕ) : Type 0 where
  pub before : List Packet
  pub after : List Packet
  pub tail : List ℕ
  pub whole : ps ≡ before ++ after
  pub ahead : a ≡ stream before ++ tail
  pub behind : tail ++ b ≡ stream after ++ rest
  pub partial : IsPartial tail
  pub short : length tail < bound

-- A part of a packet from its first byte on.
start-IsPartial :
    (id : ℕ) (payload a b rest : List ℕ)
    → a ++ b ≡ packet_bytes id payload ++ rest
    → 8 + length payload ≤ max_packet_size
    → length a < 8 + length payload
    → IsPartial a
start-IsPartial id payload a b rest e fits short = elim (dec_lt (length a) 8) [
  | yes h ↦ inl h
  | no h ↦ inr (omega (arith, field), omega (arith, field))
]
  where
    field : 8 ≤ length a → le_value (take 4 a) ≡ 8 + length payload
    field h =
        ap le_value (sym (take-append_le 4 a b (omega arith)))
        ∙ ap (λ bs. le_value (take 4 bs)) (e ∙ append_assoc _ payload rest)
        ∙ length-field (initialize_packet_header (8 + length payload) id) (payload ++ rest)
            (omega arith)

-- What starts with a whole packet is not the start of one.
pub whole-not-IsPartial :
    (id : ℕ) (payload rest : List ℕ)
    → 8 + length payload ≤ max_packet_size
    → ¬ IsPartial (packet_bytes id payload ++ rest)
whole-not-IsPartial id payload rest fits p = omega (
  arith,
  p,
  length-append (packet_bytes id payload) rest,
  length-packet_bytes id payload,
  ap (λ bs. le_value (take 4 bs)) (append_assoc (header_bytes header) payload rest),
  length-field header (payload ++ rest) (omega arith),
)
  where
    header : UnifiedPacketHeader
    header = initialize_packet_header (8 + length payload) id

prefix-IsPartial : (a b : List ℕ) → IsPartial (a ++ b) → IsPartial a
prefix-IsPartial a b (inl h) = inl (omega (arith, length-append a b))
prefix-IsPartial a b (inr h) = elim (dec_lt (length a) 8) [
  | yes short ↦ inl short
  | no long ↦ inr (omega (arith, field, length-append a b, h), omega (arith, field, h))
]
  where
    field : 8 ≤ length a → le_value (take 4 (a ++ b)) ≡ le_value (take 4 a)
    field k = ap le_value (take-append_le 4 a b (omega arith))

pub cut :
    (bound : ℕ) (ps : List Packet) (a b rest : List ℕ)
    → bound ≤ max_packet_size
    → a ++ b ≡ stream ps ++ rest
    → AreBounded bound ps
    → IsPartial rest
    → length rest < bound
    → Cut bound ps a b rest
cut bound [] a b rest m e w p k = record {
  before = [];
  after = [];
  tail = a;
  whole = refl;
  ahead = refl;
  behind = e;
  partial = prefix-IsPartial a b (subst IsPartial (sym e) p);
  short = omega (arith, ap length e, length-append a b);
}
cut bound ((id, payload) ∷ ps) a b rest m e w p k = elim (dec_lt (length a) (8 + length payload)) [
  | yes inside ↦ record {
    before = [];
    after = (id, payload) ∷ ps;
    tail = a;
    whole = refl;
    ahead = refl;
    behind = e;
    partial =
        start-IsPartial id payload a b (stream ps ++ rest) (e ∙ append_assoc _ (stream ps) rest)
          (omega arith) inside;
    short = omega arith;
  }
  | no beyond ↦
      behind_packet (omega arith) (cut bound ps (drop n a) b rest m (rest_eq (omega arith)) w.1 p k)
]
  where
    n : ℕ
    n = 8 + length payload

    len : n ≡ length (packet_bytes id payload)
    len = sym (length-packet_bytes id payload)

    e' : a ++ b ≡ packet_bytes id payload ++ (stream ps ++ rest)
    e' = e ∙ append_assoc (packet_bytes id payload) (stream ps) rest

    rest_eq : n ≤ length a → drop n a ++ b ≡ stream ps ++ rest
    rest_eq h =
        sym (drop-append_le n a b h)
        ∙ ap (drop n) e'
        ∙ drop-append n (packet_bytes id payload) (stream ps ++ rest) len

    first : n ≤ length a → take n a ≡ packet_bytes id payload
    first h =
        sym (take-append_le n a b h)
        ∙ ap (take n) e'
        ∙ take-append n (packet_bytes id payload) (stream ps ++ rest) len

    behind_packet :
        n ≤ length a → Cut bound ps (drop n a) b rest → Cut bound ((id, payload) ∷ ps) a b rest
    behind_packet h c = record {
      before = (id, payload) ∷ c.before;
      after = c.after;
      tail = c.tail;
      whole = ap (◌∷◌ (id, payload)) c.whole;
      ahead =
          sym (take-append-drop n a)
          ∙ ap₂ ◌++◌ (first h) c.ahead
          ∙ sym (append_assoc (packet_bytes id payload) (stream c.before) c.tail);
      behind = c.behind;
      partial = c.partial;
      short = c.short;
    }
