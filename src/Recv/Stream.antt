-- ===== src/Recv/Stream.antt =====
-- A byte stream that arrives in pieces: how it is cut into completions does not matter.
use jun_core_v.Common.{
  ℕ, ◌+◌, ◌*◌, ◌%◌, ◌^◌, ◌≤◌, ◌<◌, ◌≡◌, refl, sym, subst, ap, ◌∙◌, List, [], ◌∷◌, ◌++◌, Bool, true,
  false, if◌then◌else◌, ◌||◌, Option, some, length, take, drop, append_assoc, append-nil,
  length-append, arith,
}
use jun_core_v.Common.Memory.{Memory, write_bytes}
use jun_core_v.RingBuffer.{
  RingBuffer, direct_enqueue_size, remain_enqueue_size, get_free_size, move_rear,
}
use jun_core_v.RingBuffer.Inv.{IsValid, use_size-add-free_size}
use jun_core_v.RingBuffer.Enqueue.{contents, Stored, free_size-split}
use jun_core_v.RingBuffer.Dequeue.{length-contents}
use jun_core_v.RingBuffer.Receive.{scatter-Stored}
use jun_core_v.Protocol.Roundtrip.{packet_bytes, length-packet_bytes}
use jun_core_v.Session.{Session, recv_bufs}
use jun_core_v.Recv.{Handler, Outcome, receiving, on_packet_received, handle_recv_complete}
use jun_core_v.Recv.Frames.{Packet, stream, AreWords, IsPartial, deliver}
use jun_core_v.Recv.Delivery.{recv_loop-Delivers}
use jun_core_v.Recv.Rearm.{re_armed, after_loop-re_armed}
use jun_core_v.Recv.Split.{AreBounded, cut, whole-not-IsPartial}

-- The operating system, which fills the two buffers of a `WSARecv`.
abbrev pub Kernel : Type 0
Kernel = List (ℕ × ℕ) → List ℕ → Memory → Memory

-- It is documented to fill them in order, and to write nowhere else.
abbrev pub IsScatter : Kernel → Type 0
IsScatter kernel =
    (a n b k : ℕ) (bytes : List ℕ) (m : Memory)
    → length bytes ≤ n + k
    → kernel ((a, n) ∷ (b, k) ∷ []) bytes m
      ≡ write_bytes (write_bytes m a (take n bytes)) b (drop n bytes)

pub length-stream : (ps : List Packet) → 8 * length ps ≤ length (stream ps)
length-stream [] = omega arith
length-stream ((id, payload) ∷ ps) = omega (
  arith,
  length-append (packet_bytes id payload) (stream ps),
  length-packet_bytes id payload,
  length-stream ps,
)

AreWords-append : (ps qs : List Packet) → AreWords (ps ++ qs) → AreWords ps × AreWords qs
AreWords-append [] qs w = (tt, w)
AreWords-append (p ∷ ps) qs w = let (a, b) = AreWords-append ps qs w.1 in ((w.0, a), b)

AreBounded-append : (n : ℕ) (ps qs : List Packet) → AreBounded n (ps ++ qs) → AreBounded n qs
AreBounded-append n [] qs w = w
AreBounded-append n (p ∷ ps) qs w = AreBounded-append n ps qs w.1

-- No piece is longer than `n`.
abbrev pub ArePieces : ℕ → List (List ℕ) → Type 0
ArePieces n [] = Unit {0}
ArePieces n (piece ∷ pieces) = (length piece ≤ n) × ArePieces n pieces

abbrev pub joined : List (List ℕ) → List ℕ
joined [] = []
joined (piece ∷ pieces) = piece ++ joined pieces

-- Whether the handling of a completion has posted the next receive.
abbrev pub is_armed : Outcome → Bool
is_armed (receiving result calls) = result
is_armed _ = false

re_armed-is_armed :
    (done : Bool) (sock : ℕ) (b : RingBuffer)
    → done ≡ false
    → is_armed (re_armed true done (some sock) b) ≡ true
re_armed-is_armed done sock b e = rw e refl

module _ {App : Type 0} (handlers : ℕ → Option (Handler App)) where
  -- Who is connected at the end was so before.
  deliver-connected :
      (user : Option ℕ) (done : Bool) (ps : List Packet) (app : App)
      → (deliver handlers user done ps app).1 ≡ false
      → done ≡ false
  unfolding deliver
  deliver-connected user done [] app h = h
  deliver-connected user false ((id, payload) ∷ ps) app h = refl
  deliver-connected user true ((id, payload) ∷ ps) app h =
      let (app', disconnected) = on_packet_received handlers user id payload app in
      deliver-connected user true ps app' h

  deliver-append :
      (user : Option ℕ) (done : Bool) (ps qs : List Packet) (app : App)
      → let (app', done') = deliver handlers user done ps app in
        deliver handlers user done (ps ++ qs) app ≡ deliver handlers user done' qs app'
  unfolding deliver
  deliver-append user done [] qs app = refl
  deliver-append user done ((id, payload) ∷ ps) qs app =
      let (app', disconnected) = on_packet_received handlers user id payload app in
      deliver-append user (done || disconnected) ps qs app'

  module _ (kernel : Kernel) where
    -- `bytes` arrive, at the tick count `now`; `posted` is whether the system takes the next receive,
    -- if the session asks for one.
    unfoldable pub complete : Bool → ℕ → List ℕ → Session → App → Outcome × Session × App
    complete posted now bytes s app =
        let r = s.recv_buf in
        let memory = kernel (recv_bufs r) bytes r.memory in
        handle_recv_complete handlers posted (length bytes) now
          (record s { recv_buf = record r { memory = memory } }) app

    -- The pieces of the stream arrive one after another, each in a completion of the receive that the
    -- one before has asked for; what comes after a completion with no new receive is not received.
    unfoldable pub receive_all : Bool → ℕ → List (List ℕ) → Session → App → Session × App
    receive_all posted now [] s app = (s, app)
    receive_all posted now (bytes ∷ pieces) s app =
        let (outcome, s', app') = complete posted now bytes s app in
        let rest = receive_all posted now pieces s' app' in
        if is_armed outcome then rest else (s', app')

    receive_all-armed :
        (now : ℕ) (bytes : List ℕ) (pieces : List (List ℕ)) (s s' : Session) (app app' : App)
        (outcome : Outcome)
        → complete true now bytes s app ≡ (outcome, s', app')
        → is_armed outcome ≡ true
        → receive_all true now (bytes ∷ pieces) s app ≡ receive_all true now pieces s' app'
    unfolding receive_all
    receive_all-armed now bytes pieces s s' app app' outcome e armed = rw (e, armed) refl

    pub stored :
        IsScatter kernel
        → (r : RingBuffer) (bytes : List ℕ) → IsValid r
        → length bytes ≤ get_free_size r
        → Stored r bytes
            (move_rear (length bytes) (record r { memory = kernel (recv_bufs r) bytes r.memory }))
    unfolding recv_bufs
    stored scatters r bytes v room =
        subst (λ m. Stored r bytes (move_rear (length bytes) (record r { memory = m })))
          (sym (
            scatters r.write_pos (direct_enqueue_size r) r.begin (remain_enqueue_size r) bytes
              r.memory (omega (arith, free_size-split r))))
          (scatter-Stored bytes v room)

    pub complete_delivers :
        IsScatter kernel
        → (posted : Bool) (ps : List Packet) (s : Session) (app : App) (engine : ℕ)
          (rest bytes : List ℕ) (now : ℕ)
        → IsValid s.recv_buf
        → s.engine ≡ some engine
        → contents s.recv_buf ++ bytes ≡ stream ps ++ rest
        → AreWords ps
        → IsPartial rest
        → length bytes ≤ get_free_size s.recv_buf
        → length ps < 1000
        → (b : RingBuffer) × IsValid b
          × (contents b ≡ rest)
          × (let (app', done) = deliver handlers s.owner_user s.pending_disconnect ps app in
              let s' : Session = record s {
                recv_buf = b;
                pending_disconnect = done;
                last_recv_time = now % 2 ^ 32;
              } in
              complete posted now bytes s app ≡ (re_armed posted done s.sock b, s', app'))
    unfolding complete handle_recv_complete
    complete_delivers scatters posted ps s app engine rest bytes now v e held w p room few =
        let st = stored scatters s.recv_buf bytes v room in
        let (b, valid, left, out) =
          recv_loop-Delivers handlers posted ps 1000
            (record s {
              recv_buf = move_rear (length bytes) (record s.recv_buf {
                memory = kernel (recv_bufs s.recv_buf) bytes s.recv_buf.memory;
              });
              last_recv_time = now % 2 ^ 32;
            })
            app engine rest st.valid e (st.appended ∙ held) w p few in
        let (app', done) = deliver handlers s.owner_user s.pending_disconnect ps app in
        let s' : Session = record s {
          recv_buf = b;
          pending_disconnect = done;
          last_recv_time = now % 2 ^ 32;
        } in
        (
          b,
          valid,
          left,
          out ∙ ap (λ o. (o, s', app')) (after_loop-re_armed posted done s.sock s' refl refl),
        )

    -- A stream of packets is cut in any way into pieces, each of which arrives in a completion of the
    -- receive that the one before has posted: its packets reach their handlers once each and in
    -- order, and what is left in the buffer is the start of the next one. The condition is that the
    -- sizes of a packet and of a piece add up to at most 8000 bytes, that the session has a socket
    -- and an engine, that neither it nor a handler disconnects it, and that the system takes every
    -- receive that is posted.
    pub stream_delivers :
        IsScatter kernel
        → (bound piece : ℕ) → bound + piece ≤ 8000
        → (now : ℕ) (pieces : List (List ℕ)) (ps : List Packet) (s : Session) (app : App)
          (engine sock : ℕ) (rest : List ℕ)
        → IsValid s.recv_buf
        → s.engine ≡ some engine
        → s.sock ≡ some sock
        → (deliver handlers s.owner_user s.pending_disconnect ps app).1 ≡ false
        → contents s.recv_buf ++ joined pieces ≡ stream ps ++ rest
        → IsPartial (contents s.recv_buf)
        → length (contents s.recv_buf) < bound
        → IsPartial rest
        → length rest < bound
        → AreWords ps
        → AreBounded bound ps
        → ArePieces piece pieces
        → let (s', app') = receive_all true now pieces s app in
          (contents s'.recv_buf ≡ rest)
          × ((app', s'.pending_disconnect)
              ≡ deliver handlers s.owner_user s.pending_disconnect ps app)
    unfolding receive_all deliver
    stream_delivers scatters bound piece room now [] [] s app engine sock rest v e so up held p
          short q k w bd _ =
        (sym (append-nil (contents s.recv_buf)) ∙ held, refl)
    stream_delivers scatters bound piece room now [] ((id, payload) ∷ ps) s app engine sock rest v e
          so up held p short q k w bd _ =
        absurd (
          whole-not-IsPartial id payload (stream ps ++ rest) (omega arith) (
            subst IsPartial
              (sym (append-nil (contents s.recv_buf))
                ∙ held
                ∙ append_assoc (packet_bytes id payload) (stream ps) rest)
              p))
    stream_delivers scatters bound piece room now (bytes ∷ pieces) ps s app engine sock rest v e so
          up held p short q k w bd sm =
        let c =
          cut bound ps (contents s.recv_buf ++ bytes) (joined pieces) rest (omega arith)
            (append_assoc (contents s.recv_buf) bytes (joined pieces) ∙ held) bd q k in
        let words = AreWords-append c.before c.after (subst AreWords c.whole w) in
        let size : length (contents s.recv_buf) + length bytes
            ≡ length (stream c.before) + length c.tail =
          sym (length-append (contents s.recv_buf) bytes)
          ∙ ap length c.ahead
          ∙ length-append (stream c.before) c.tail in
        let (b, valid, left, out) =
          complete_delivers scatters true c.before s app engine c.tail bytes now v e c.ahead words.0
            c.partial (omega (arith, length-contents s.recv_buf, use_size-add-free_size v))
            (omega (arith, length-stream c.before, size)) in
        let (app', done) = deliver handlers s.owner_user s.pending_disconnect c.before app in
        let s' : Session = record s {
          recv_buf = b;
          pending_disconnect = done;
          last_recv_time = now % 2 ^ 32;
        } in
        let whole =
          ap (λ qs. deliver handlers s.owner_user s.pending_disconnect qs app) c.whole
          ∙ deliver-append s.owner_user s.pending_disconnect c.before c.after app in
        let up' : (deliver handlers s.owner_user done c.after app').1 ≡ false =
          sym (ap (λ (x : App × Bool). x.1) whole) ∙ up in
        let later =
          stream_delivers scatters bound piece room now pieces c.after s' app' engine sock rest
            valid e so up' (ap (λ xs. xs ++ joined pieces) left ∙ c.behind)
            (subst IsPartial (sym left) c.partial) (omega (arith, ap length left, c.short)) q k
            words.1 (AreBounded-append bound c.before c.after (subst (AreBounded bound) c.whole bd))
            sm.1 in
        let armed : is_armed (re_armed true done s.sock b) ≡ true =
          subst (λ x. is_armed (re_armed true done x b) ≡ true) (sym so)
            (re_armed-is_armed done sock b
              (deliver-connected s.owner_user done c.after app' up')) in
        subst
          (λ (out : Session × App).
            (contents out.0.recv_buf ≡ rest)
            × ((out.1, out.0.pending_disconnect)
                ≡ deliver handlers s.owner_user s.pending_disconnect ps app))
          (sym (receive_all-armed now bytes pieces s s' app app' _ out armed))
          (later.0, later.1 ∙ sym whole)
