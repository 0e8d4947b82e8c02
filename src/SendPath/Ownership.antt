-- ===== src/SendPath/Ownership.antt =====
-- The steps of one thread of the send path of Session.cpp, whatever the others are.
use jun_core_v.Common.{
  ℕ, zero, suc, ◌+◌, ◌*◌, ◌≤◌, ◌<◌, ◌≡◌, false, [], ◌∷◌, length, length-append, arith,
}
use jun_core_v.Common.Weights.{bit, total}
use jun_core_v.SendPath.{
  SendState, Sender, SendSystem, sender_step, dequeue_packet, claim_packet, linking, collecting,
  dequeuing, claiming, prepared,
}
use jun_core_v.SendPath.Weights.{holder, trier, counter, relying}

-- With `holders` threads that hold the flag, of whom `relyings` rely on a packet in the queue: the
-- flag has at most one holder, a send in progress included, and just one while the session is well.
abbrev pub Held : ℕ → ℕ → SendState → Type 0
Held relyings holders s =
    (holders + s.outstanding ≤ bit s.send_flag)
    × (s.pending_disconnect ≡ false → s.failed ≡ false → bit s.send_flag ≤ holders + s.outstanding)
    × (relyings ≤ 1)
    × (relyings ≤ s.use_count)

abbrev pub Awake : ℕ → SendState → Type 0
Awake triers s = 0 < s.use_count → 0 < bit s.send_flag + bit s.pending_disconnect + triers

abbrev pub Counted : ℕ → SendState → Type 0
Counted counters s = length s.send_q ≡ s.use_count + counters

pub record Invariant (p : SendSystem) : Type 0 where
  pub held : Held (total relying p.1) (total holder p.1) p.0
  pub awake : Awake (total trier p.1) p.0
  pub counted : Counted (total counter p.1) p.0

pub relying-le-holder : (sender : Sender) → relying sender ≤ 2 * holder sender
relying-le-holder (collecting zero []) = omega arith
relying-le-holder (collecting zero (p ∷ ps)) = omega arith
relying-le-holder (collecting (suc rounds) []) = omega arith
relying-le-holder (collecting (suc rounds) (p ∷ ps)) = omega arith
relying-le-holder (prepared []) = omega arith
relying-le-holder (prepared (p ∷ ps)) = omega arith
relying-le-holder sender = omega arith

pub sender_step-Held :
    (sender : Sender) (s : SendState) (others_r others_h : ℕ)
    → others_r ≤ 2 * others_h
    → Held (others_r + relying sender) (others_h + holder sender) s
    → Held
        (others_r + total relying (sender_step sender s).1)
        (others_h + total holder (sender_step sender s).1)
        (sender_step sender s).0
unfolding sender_step dequeue_packet claim_packet total
sender_step-Held (collecting zero []) s others_r others_h b h = ground arith
sender_step-Held (collecting zero (p ∷ ps)) s others_r others_h b h = ground arith
sender_step-Held (collecting (suc rounds) []) s others_r others_h b h = ground arith
sender_step-Held (collecting (suc rounds) (p ∷ ps)) s others_r others_h b h = ground arith
sender_step-Held (dequeuing zero []) s others_r others_h b h = ground arith
sender_step-Held (dequeuing zero (p ∷ ps)) s others_r others_h b h = ground arith
sender_step-Held (dequeuing (suc rounds) []) s others_r others_h b h = ground arith
sender_step-Held (dequeuing (suc rounds) (p ∷ ps)) s others_r others_h b h = ground arith
sender_step-Held (claiming zero []) s others_r others_h b h = ground arith
sender_step-Held (claiming zero (p ∷ ps)) s others_r others_h b h = ground arith
sender_step-Held (claiming (suc rounds) []) s others_r others_h b h = ground arith
sender_step-Held (claiming (suc rounds) (p ∷ ps)) s others_r others_h b h = ground arith
sender_step-Held (prepared []) s others_r others_h b h = ground arith
sender_step-Held (prepared (p ∷ ps)) s others_r others_h b h = ground arith
sender_step-Held sender s others_r others_h b h = ground arith

pub sender_step-Awake :
    (sender : Sender) (s : SendState) (others : ℕ)
    → Awake (others + trier sender) s
    → Awake (others + total trier (sender_step sender s).1) (sender_step sender s).0
unfolding sender_step dequeue_packet claim_packet total
sender_step-Awake (collecting (suc rounds) packets) s others h = ground arith
sender_step-Awake (prepared []) s others h = ground arith
sender_step-Awake sender s others h = ground arith

pub sender_step-Counted :
    (sender : Sender) (s : SendState) (others : ℕ)
    → Counted (others + counter sender) s
    → Counted (others + total counter (sender_step sender s).1) (sender_step sender s).0
unfolding sender_step dequeue_packet claim_packet total
sender_step-Counted (linking packet) s others h =
    ground (arith, length-append s.send_q (packet ∷ []))
sender_step-Counted (collecting (suc rounds) packets) s others h = ground arith
sender_step-Counted (prepared []) s others h = ground arith
sender_step-Counted sender s others h = ground arith
