-- ===== src/Recv/Rearm.antt =====
-- What `HandleRecvComplete` of IOCPManager.cpp does after its loop.
use jun_core_v.Common.{ℕ, ◌≡◌, refl, [], ◌∷◌, Bool, true, false, Option, none, some}
use jun_core_v.RingBuffer.{RingBuffer}
use jun_core_v.Session.{Session, recv_async, recv_bufs, wsa_recv, post_completion, io_recv}
use jun_core_v.Recv.{Outcome, receiving, disconnecting, after_loop}

-- How a completion without a bad packet ends: the next receive fills the free stretches of the ring,
-- unless the session has no socket or is being disconnected; a receive that the system does not
-- take is completed with no bytes.
abbrev pub re_armed : Bool → Bool → Option ℕ → RingBuffer → Outcome
re_armed posted true sock ring = disconnecting
re_armed posted false none ring = receiving false []
re_armed true false (some sock) ring = receiving true (wsa_recv (recv_bufs ring) ∷ [])
re_armed false false (some sock) ring =
    receiving false (wsa_recv (recv_bufs ring) ∷ post_completion io_recv ∷ [])

pub after_loop-re_armed :
    (posted disconnected : Bool) (sock : Option ℕ) (s : Session)
    → s.pending_disconnect ≡ disconnected
    → s.sock ≡ sock
    → after_loop posted s ≡ re_armed posted disconnected sock s.recv_buf
unfolding after_loop recv_async
after_loop-re_armed posted true sock s e f = rw e refl
after_loop-re_armed posted false none s e f = rw (e, f) refl
after_loop-re_armed true false (some sock) s e f = rw (e, f) refl
after_loop-re_armed false false (some sock) s e f = rw (e, f) refl
