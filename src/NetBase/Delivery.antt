-- ===== src/NetBase/Delivery.antt =====
-- From one program's `SendPacket` to the other program's handlers: the send path, the bytes of the
-- packets and the receive path together.
use jun_core_v.Common.{
  ℕ, ◌+◌, ◌≤◌, ◌<◌, ◌≡◌, refl, sym, ap, ◌∙◌, List, [], ◌∷◌, ◌++◌, true, false, some, length,
  append-nil, inl, arith,
}
use mathlib.Core.Option.{some-injective}
use jun_core_v.RingBuffer.Inv.{IsValid}
use jun_core_v.RingBuffer.Enqueue.{contents}
use jun_core_v.Protocol.{Message, IsSerializable, header_bytes, initialize_packet_header}
use jun_core_v.Protocol.Fnv.{fnv1a, fnv1a-lt}
use jun_core_v.Protocol.Roundtrip.{packet_bytes}
use jun_core_v.Session.{Session}
use jun_core_v.SendPath.{SendState, SendReachable}
use jun_core_v.SendPath.Order.{quiescent_all_sent}
use jun_core_v.Recv.Frames.{Packet, stream, AreWords, deliver}
use jun_core_v.Recv.Split.{AreBounded}
use jun_core_v.Recv.Stream.{Kernel, IsScatter, ArePieces, joined, receive_all, stream_delivers}
use jun_core_v.User.{session_packet}
use jun_core_v.NetBase.{NetBase, find_handler}

-- The ids and payloads under which messages travel.
abbrev pub packets_of : List (Message × List ℕ) → List Packet
packets_of [] = []
packets_of ((msg, payload) ∷ sent) = (fnv1a msg.full_name, payload) ∷ packets_of sent

-- The packets in the send queue are those that `SendPacket` makes of the messages, in their order.
abbrev pub AreSent : List (Message × List ℕ) → List (List ℕ) → Type 0
AreSent [] [] = Unit {0}
AreSent ((msg, payload) ∷ sent) (packet ∷ packets) =
    IsSerializable msg payload × (session_packet msg ≡ some packet) × AreSent sent packets
AreSent _ _ = ⊥

session_packet-eq :
    (msg : Message) (payload packet : List ℕ)
    → IsSerializable msg payload
    → 8 + length payload ≤ 8000
    → session_packet msg ≡ some packet
    → packet ≡ packet_bytes (fnv1a msg.full_name) payload
unfolding session_packet
session_packet-eq msg payload packet s fits e =
    let made : session_packet msg ≡ some (packet_bytes (fnv1a msg.full_name) payload) =
      rw (s.writes, session_packet)
        (ap
          (λ size.
            some (header_bytes (initialize_packet_header size (fnv1a msg.full_name)) ++ payload))
          (omega (arith, s.size))) in
    some-injective _ _ (sym e ∙ made)

AreWords-packets_of : (sent : List (Message × List ℕ)) → AreWords (packets_of sent)
AreWords-packets_of [] = tt
AreWords-packets_of ((msg, payload) ∷ sent) = (fnv1a-lt msg.full_name, AreWords-packets_of sent)

joined-AreSent :
    (bound : ℕ) (sent : List (Message × List ℕ)) (packets : List (List ℕ))
    → bound ≤ 8000
    → AreSent sent packets
    → AreBounded bound (packets_of sent)
    → joined packets ≡ stream (packets_of sent)
joined-AreSent bound [] [] b h k = refl
joined-AreSent bound [] (p ∷ ps) b h k = absurd h
joined-AreSent bound (m ∷ ms) [] b h k = absurd h
joined-AreSent bound ((msg, payload) ∷ sent) (packet ∷ packets) b h k =
    ap (λ bytes. bytes ++ joined packets)
      (session_packet-eq msg payload packet h.0 (omega arith) h.1)
    ∙ ap (λ bytes. packet_bytes (fnv1a msg.full_name) payload ++ bytes)
        (joined-AreSent bound sent packets b h.2 k.1)

-- The condition is a sending session that is not being disconnected, had no failed send and is done with
-- the messages that were sent through it; and a receiving session of another program with an empty
-- buffer, a socket and an engine, which neither it nor a handler disconnects and whose receives the
-- system takes, to which their bytes arrive, cut in any way into pieces such that the sizes of a packet
-- and of a piece add up to at most 8000 bytes. Then the handlers there have been given the payloads,
-- once each and in the order of the queue, each under the hash of its message's type.
pub sent_is_delivered :
    {App : Type 0} (n : NetBase App) (kernel : Kernel)
    → IsScatter kernel
    → (bound piece : ℕ) → 0 < bound
    → bound + piece ≤ 8000
    → (now : ℕ) (s : SendState) (sent : List (Message × List ℕ)) (pieces : List (List ℕ))
      (r : Session) (app : App) (engine sock : ℕ)
    → SendReachable (s, [])
    → s.pending_disconnect ≡ false
    → s.failed ≡ false
    → s.outstanding ≡ 0
    → AreSent sent s.accepted
    → joined pieces ≡ joined s.on_wire
    → IsValid r.recv_buf
    → contents r.recv_buf ≡ []
    → r.engine ≡ some engine
    → r.sock ≡ some sock
    → (deliver
        (λ id. find_handler id n.packet_handlers)
        r.owner_user
        r.pending_disconnect
        (packets_of sent)
        app).1
      ≡ false
    → AreBounded bound (packets_of sent)
    → ArePieces piece pieces
    → let handlers = λ (id : ℕ). find_handler id n.packet_handlers in
      let (r', app') = receive_all handlers kernel true now pieces r app in
      (contents r'.recv_buf ≡ [])
      × ((app', r'.pending_disconnect)
          ≡ deliver handlers r.owner_user r.pending_disconnect (packets_of sent) app)
sent_is_delivered n kernel scatters bound piece pos room now s sent pieces r app engine sock reach
      up well done all arrived valid empty e so stays bounded small =
    let wire : joined pieces ≡ stream (packets_of sent) =
      arrived
      ∙ ap joined (quiescent_all_sent s reach up well done)
      ∙ joined-AreSent bound sent s.accepted (omega arith) all bounded in
    let none_there : length (contents r.recv_buf) ≡ 0 = ap length empty in
    stream_delivers (λ id. find_handler id n.packet_handlers) kernel scatters bound piece room now
      pieces (packets_of sent) r app engine sock [] valid e so stays
      (ap (λ bytes. bytes ++ joined pieces) empty ∙ wire ∙ sym (append-nil _))
      (inl (omega (arith, none_there))) (omega (arith, none_there)) (inl (omega arith)) pos
      (AreWords-packets_of sent) bounded small
