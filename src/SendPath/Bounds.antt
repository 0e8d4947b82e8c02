-- ===== src/SendPath/Bounds.antt =====
-- The arrays of `MAX_SEND_MSG` entries in `SendAsyncImpl` of Session.cpp.
use jun_core_v.Common.{
  ℕ, suc, ◌+◌, ◌-◌, ◌≤◌, ◌≡◌, List, [], ◌∷◌, ◌++◌, length, length-append, arith,
}
use jun_core_v.Common.Weights.{total, total_cons, total_at, around}
use jun_core_v.SendPath.{
  SendState, Sender, Packet, SendSystem, act, call_send_packet, call_disconnect, complete,
  complete_failed, SendReachable, start, next, sender_step, dequeue_packet, claim_packet,
  max_send_msg, checking, finishing, collecting, dequeuing, claiming, prepared,
}

-- By how much the packets of a thread and the rounds that it has left exceed the arrays.
abbrev excess : Sender → ℕ
excess (collecting rounds packets) = (rounds + length packets) - max_send_msg
excess (dequeuing rounds packets) = suc (rounds + length packets) - max_send_msg
excess (claiming rounds packets) = suc (rounds + length packets) - max_send_msg
excess (prepared packets) = length packets - max_send_msg
excess _ = 0

abbrev Within : ℕ → SendState → Type 0
Within excesses s = excesses ≡ 0

sender_step-Within :
    (sender : Sender) (s : SendState) (others : ℕ)
    → Within (others + excess sender) s
    → Within (others + total excess (sender_step sender s).1) (sender_step sender s).0
unfolding sender_step dequeue_packet claim_packet total
sender_step-Within (collecting (suc rounds) packets) s others h = ground arith
sender_step-Within (claiming rounds packets) s others h = grind (arith, h, length-append)
sender_step-Within (prepared []) s others h = ground arith
sender_step-Within sender s others h = ground arith

SendReachable-Within : {p : SendSystem} → SendReachable p → Within (total excess p.1) p.0
unfolding total
SendReachable-Within (start sock) = ground arith
SendReachable-Within (next _ _ r (act s before sender after)) =
    around sender_step Within excess sender_step-Within s before sender after
      (SendReachable-Within r)
SendReachable-Within (next _ _ r (call_send_packet s senders packet)) =
    omega (arith, SendReachable-Within r, total_cons excess (checking packet) senders)
SendReachable-Within (next _ _ r (call_disconnect s senders)) = SendReachable-Within r
SendReachable-Within (next _ _ r (complete s senders n e)) =
    omega (arith, SendReachable-Within r, total_cons excess finishing senders)
SendReachable-Within (next _ _ r (complete_failed s senders n e)) = SendReachable-Within r

-- In every reachable state the packets that a thread is about to give to `WSASend` are at most the 200
-- that the arrays hold.
pub prepared_fits :
    (s : SendState) (before after : List Sender) (packets : List Packet)
    → SendReachable (s, before ++ (prepared packets ∷ after))
    → length packets ≤ 200
prepared_fits s before after packets r =
    omega (arith, SendReachable-Within r, total_at excess before (prepared packets) after)
