-- ===== src/SendPath/Order.antt =====
-- The order in which the send path of Session.cpp gives packets to `WSASend`.
use jun_core_v.Common.{
  ℕ, zero, suc, ◌≡◌, refl, sym, ap, ap₂, subst, ◌∙◌, false, List, [], ◌∷◌, ◌++◌, append_assoc,
  append-nil, arith,
}
use jun_core_v.Common.Weights.{total_at, gather, gather_around, gather_at, gather_nothing}
use jun_core_v.SendPath.{
  SendState, Sender, Packet, SendSystem, SendStep, act, call_send_packet, call_disconnect, complete,
  complete_failed, SendReachable, start, next, sender_step, dequeue_packet, claim_packet, linking,
  collecting, dequeuing, claiming, prepared, crashing,
}
use jun_core_v.SendPath.Weights.{holder, taken}
use jun_core_v.SendPath.Wakeup.{one_send, quiescent_nothing_queued}

-- The packets accepted are those sent, those taken off the queue and those queued, in that order.
abbrev Ordered : List Packet → SendState → Type 0
Ordered packets s = s.accepted ≡ s.on_wire ++ (packets ++ s.send_q)

claim_packet-Ordered :
    (rounds : ℕ) (packets : List Packet) (s : SendState)
    → Ordered packets s
    → Ordered (taken (claim_packet rounds packets s).1) (claim_packet rounds packets s).0
unfolding claim_packet
claim_packet-Ordered rounds packets s h = grind (arith, h, append_assoc)

-- Only what one thread has taken counts, if no other holds the flag.
alone_gathers :
    (sender : Sender) {left right : List Packet}
    → (left ≡ []) × (right ≡ [])
    → left ++ (gather taken (sender ∷ []) ++ right) ≡ taken sender
unfolding gather
alone_gathers sender (l, r) =
    ap₂ (λ xs ys. xs ++ ((taken sender ++ []) ++ ys)) l r
    ∙ append-nil (taken sender ++ [])
    ∙ append-nil (taken sender)

sender_step-Ordered :
    (sender : Sender) (s : SendState) (left right : List Packet)
    → (holder sender ≡ 1 → (left ≡ []) × (right ≡ []))
    → Ordered (left ++ (taken sender ++ right)) s
    → Ordered (left ++ (gather taken (sender_step sender s).1 ++ right)) (sender_step sender s).0
unfolding sender_step dequeue_packet gather
sender_step-Ordered (linking packet) s left right alone h =
    ap (λ packets. packets ++ (packet ∷ [])) h
    ∙ append_assoc s.on_wire ((left ++ right) ++ s.send_q) (packet ∷ [])
    ∙ ap (◌++◌ s.on_wire) (append_assoc (left ++ right) s.send_q (packet ∷ []))
sender_step-Ordered (collecting zero packets) s left right alone h =
    ground (arith, h, append-nil packets)
sender_step-Ordered (collecting (suc rounds) packets) s left right alone h =
    ground (arith, h, append-nil packets)
sender_step-Ordered (dequeuing rounds packets) s left right alone h =
    ground (arith, h, append-nil packets)
sender_step-Ordered (crashing packets) s left right alone h = ground (arith, h, append-nil packets)
sender_step-Ordered (claiming rounds packets) s left right alone h =
    let (l, r) = alone refl in
    subst (λ ps. Ordered ps (claim_packet rounds packets s).0)
      (sym (alone_gathers (claim_packet rounds packets s).1 (l, r)))
      (claim_packet-Ordered rounds packets s (
        subst (λ ps. Ordered ps s) (ap₂ (λ xs ys. xs ++ (packets ++ ys)) l r ∙ append-nil packets)
          h))
sender_step-Ordered (prepared []) s left right alone h = ground (arith, h)
sender_step-Ordered (prepared (packet ∷ packets)) s left right alone h =
    let (l, r) = alone refl in
    let sent = packet ∷ packets in
    subst (λ ps. Ordered ps s) (ap₂ (λ xs ys. xs ++ (sent ++ ys)) l r ∙ append-nil sent) h
    ∙ sym (append_assoc s.on_wire sent s.send_q)
    ∙ ap (λ ps. (s.on_wire ++ sent) ++ (ps ++ s.send_q)) (sym (ap₂ ◌++◌ l r))
sender_step-Ordered sender s left right alone h = ground (arith, h)

no_holder_takes_nothing : (sender : Sender) → holder sender ≡ 0 → taken sender ≡ []
no_holder_takes_nothing (collecting rounds packets) h = absurd (omega arith)
no_holder_takes_nothing (dequeuing rounds packets) h = absurd (omega arith)
no_holder_takes_nothing (claiming rounds packets) h = absurd (omega arith)
no_holder_takes_nothing (prepared packets) h = absurd (omega arith)
no_holder_takes_nothing (crashing packets) h = absurd (omega arith)
no_holder_takes_nothing sender h = refl

-- A holder is the only one.
others_take_nothing :
    (s : SendState) (before : List Sender) (sender : Sender) (after : List Sender)
    → SendReachable (s, before ++ (sender ∷ after))
    → holder sender ≡ 1
    → (gather taken before ≡ []) × (gather taken after ≡ [])
others_take_nothing s before sender after r e =
    let sum = total_at holder before sender after in
    (
      gather_nothing taken holder no_holder_takes_nothing before
          (omega (arith, one_send r, sum, e)),
      gather_nothing taken holder no_holder_takes_nothing after (omega (arith, one_send r, sum, e)),
    )

SendStep-Ordered :
    {p p' : SendSystem}
    → SendStep p p'
    → SendReachable p
    → Ordered (gather taken p.1) p.0
    → Ordered (gather taken p'.1) p'.0
unfolding gather
SendStep-Ordered (act s before sender after) r h =
    subst (λ ps. Ordered ps (sender_step sender s).0)
      (sym (gather_around taken before (sender_step sender s).1 after))
      (sender_step-Ordered sender s (gather taken before) (gather taken after)
        (others_take_nothing s before sender after r)
        (subst (λ ps. Ordered ps s) (gather_at taken before sender after) h))
SendStep-Ordered (call_send_packet s senders packet) r h = h
SendStep-Ordered (call_disconnect s senders) r h = h
SendStep-Ordered (complete s senders n e) r h = h
SendStep-Ordered (complete_failed s senders n e) r h = h

-- In every reachable state the accepted packets are those given to `WSASend`, then those that the
-- holder of the flag has taken off the queue, then those in the queue: packets are sent once each and
-- in the order in which they were put in the queue, and none is lost.
pub sends_in_order :
    (p : SendSystem)
    → SendReachable p
    → p.0.accepted ≡ p.0.on_wire ++ (gather taken p.1 ++ p.0.send_q)
unfolding gather
sends_in_order _ (start sock) = refl
sends_in_order _ (next p p' r st) = SendStep-Ordered st r (sends_in_order p r)

-- When all calls have returned and no send is in progress, a session that is not being disconnected
-- and had no failed send has sent every accepted packet, in the order of the queue.
pub quiescent_all_sent :
    (s : SendState)
    → SendReachable (s, [])
    → s.pending_disconnect ≡ false
    → s.failed ≡ false
    → s.outstanding ≡ 0
    → s.on_wire ≡ s.accepted
unfolding gather
quiescent_all_sent s r up well none_going = sym (
    sends_in_order (s, []) r
    ∙ ap (◌++◌ s.on_wire) (quiescent_nothing_queued s r up well none_going).1
    ∙ append-nil s.on_wire)
