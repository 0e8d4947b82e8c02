-- ===== src/Recv/Delivery.antt =====
-- The loop of `HandleRecvComplete` on a buffer that holds whole packets and the start of one.
use jun_core_v.Common.{
  ℕ, zero, suc, ◌≤◌, ◌<◌, ◌≡◌, refl, sym, subst, ◌∙◌, ap, List, [], ◌∷◌, ◌++◌, Bool, ◌||◌, Option,
  some, length, append_assoc, arith,
}
use jun_core_v.RingBuffer.{RingBuffer}
use jun_core_v.RingBuffer.Inv.{IsValid}
use jun_core_v.RingBuffer.Enqueue.{contents}
use jun_core_v.Protocol.Roundtrip.{packet_bytes}
use jun_core_v.Session.{Session}
use jun_core_v.Recv.{
  Handler, Outcome, loop_count_reached, on_packet_received, invalid_packet_length, incomplete,
  invalid, next_packet, after_loop, recv_loop,
}
use jun_core_v.Recv.Frames.{Packet, stream, AreWords, IsPartial, deliver}
use jun_core_v.Recv.Assembly.{
  Extracted, extract-Extracted, next_packet-Extracted, next_packet_partial,
}

module _ {App : Type 0} (handlers : ℕ → Option (Handler App)) (posted : Bool) where
  -- The loop gives the packets to their handlers in order, keeps `rest`, and ends by asking for
  -- more.
  abbrev pub Delivers : ℕ → Session → App → List Packet → List ℕ → Type 0
  Delivers rounds s app ps rest =
      (b : RingBuffer) × IsValid b
      × (contents b ≡ rest)
      × (let (app', done) = deliver handlers s.owner_user s.pending_disconnect ps app in
          let s' : Session = record s { recv_buf = b; pending_disconnect = done } in
          recv_loop handlers posted rounds s app ≡ (after_loop posted s', s', app'))

  abbrev after_packet : Session → App → RingBuffer → ℕ → List ℕ → Session × App
  after_packet s app b id payload =
      let (app', disconnected) = on_packet_received handlers s.owner_user id payload app in
      (record s { recv_buf = b; pending_disconnect = s.pending_disconnect || disconnected }, app')

  recv_loop_packet :
      (rounds : ℕ) (s : Session) (app : App) (engine id : ℕ) (payload rest : List ℕ)
      (x : Extracted s.recv_buf id payload rest)
      → s.engine ≡ some engine
      → let (s', app') = after_packet s app x.left id payload in
        recv_loop handlers posted (suc rounds) s app ≡ recv_loop handlers posted rounds s' app'
  unfolding recv_loop
  recv_loop_packet rounds s app engine id payload rest x e = ground (arith, next_packet-Extracted x)

  pub recv_loop_partial :
      (rounds : ℕ) (s : Session) (app : App)
      → next_packet s.recv_buf ≡ incomplete
      → recv_loop handlers posted (suc rounds) s app ≡ (after_loop posted s, s, app)
  unfolding recv_loop
  recv_loop_partial rounds s app e = ground arith

  pub recv_loop_invalid :
      (rounds : ℕ) (s : Session) (app : App)
      → next_packet s.recv_buf ≡ invalid
      → recv_loop handlers posted (suc rounds) s app ≡ (invalid_packet_length, s, app)
  unfolding recv_loop
  recv_loop_invalid rounds s app e = ground arith

  -- With a round to spare for the start of a packet, every whole packet is delivered.
  pub recv_loop-Delivers :
      (ps : List Packet) (rounds : ℕ) (s : Session) (app : App) (engine : ℕ) (rest : List ℕ)
      → IsValid s.recv_buf
      → s.engine ≡ some engine
      → contents s.recv_buf ≡ stream ps ++ rest
      → AreWords ps
      → IsPartial rest
      → length ps < rounds
      → Delivers rounds s app ps rest
  unfolding deliver
  recv_loop-Delivers [] zero s app engine rest v e held w p k = absurd (omega arith)
  recv_loop-Delivers [] (suc rounds) s app engine rest v e held w p k = (
    s.recv_buf,
    v,
    held,
    recv_loop_partial rounds s app (next_packet_partial v (subst IsPartial (sym held) p)),
  )
  recv_loop-Delivers (q ∷ ps) zero s app engine rest v e held w p k = absurd (omega arith)
  recv_loop-Delivers ((id, payload) ∷ ps) (suc rounds) s app engine rest v e held w p k =
      let x =
        extract-Extracted id payload (stream ps ++ rest) v w.0
          (held ∙ append_assoc (packet_bytes id payload) (stream ps) rest) in
      let (s', app') = after_packet s app x.left id payload in
      let (b, ok, left, result) =
        recv_loop-Delivers ps rounds s' app' engine rest x.valid e x.held w.1 p (omega arith) in
      (
        b,
        ok,
        left,
        recv_loop_packet rounds s app engine id payload (stream ps ++ rest) x e ∙ result,
      )

  -- When as many whole packets are there as there are rounds, the loop gives up behind the last
  -- one.
  pub recv_loop_gives_up :
      (ps : List Packet) (rounds : ℕ) (s : Session) (app : App) (engine : ℕ) (rest : List ℕ)
      → IsValid s.recv_buf
      → s.engine ≡ some engine
      → contents s.recv_buf ≡ stream ps ++ rest
      → AreWords ps
      → rounds ≤ length ps
      → (recv_loop handlers posted rounds s app).0 ≡ loop_count_reached
  unfolding recv_loop
  recv_loop_gives_up ps zero s app engine rest v e held w k = refl
  recv_loop_gives_up [] (suc rounds) s app engine rest v e held w k = absurd (omega arith)
  recv_loop_gives_up ((id, payload) ∷ ps) (suc rounds) s app engine rest v e held w k =
      let x =
        extract-Extracted id payload (stream ps ++ rest) v w.0
          (held ∙ append_assoc (packet_bytes id payload) (stream ps) rest) in
      let (s', app') = after_packet s app x.left id payload in
      ap (λ (out : Outcome × Session × App). out.0)
        (recv_loop_packet rounds s app engine id payload (stream ps ++ rest) x e)
      ∙ recv_loop_gives_up ps rounds s' app' engine rest x.valid e x.held w.1 (omega arith)
