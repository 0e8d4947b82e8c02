-- ===== src/SendPath/Wakeup.antt =====
-- All threads of the send path of Session.cpp together: one send at a time, and no packet stranded.
use jun_core_v.Common.{◌+◌, ◌≤◌, ◌<◌, ◌≡◌, false, List, [], ◌∷◌, ◌++◌, length-eq-zero, arith}
use jun_core_v.Common.Weights.{total, total_cons, total_at, around, around_both}
use jun_core_v.SendPath.{
  SendState, Sender, Packet, SendSystem, SendStep, act, call_send_packet, call_disconnect, complete,
  complete_failed, SendReachable, start, next, sender_step, checking, finishing, prepared, crashing,
}
use jun_core_v.SendPath.Weights.{holder, trier, counter, relying}
use jun_core_v.SendPath.Ownership.{
  Held, Awake, Counted, Invariant, relying-le-holder, sender_step-Held, sender_step-Awake,
  sender_step-Counted,
}

pub SendStep-Invariant : {p p' : SendSystem} → SendStep p p' → Invariant p → Invariant p'
SendStep-Invariant (act s before sender after) i = record {
  held =
      around_both sender_step Held relying holder relying-le-holder sender_step-Held s before sender
        after i.held;
  awake = around sender_step Awake trier sender_step-Awake s before sender after i.awake;
  counted = around sender_step Counted counter sender_step-Counted s before sender after i.counted;
}
SendStep-Invariant (call_send_packet s senders packet) i = record {
  held = ground (
    arith,
    i.held,
    total_cons relying (checking packet) senders,
    total_cons holder (checking packet) senders,
  );
  awake = ground (arith, i.awake, total_cons trier (checking packet) senders);
  counted = ground (arith, i.counted, total_cons counter (checking packet) senders);
}
SendStep-Invariant (call_disconnect s senders) i = record {
  held = ground (arith, i.held);
  awake = ground (arith, i.awake);
  counted = i.counted;
}
SendStep-Invariant (complete s senders n e) i = record {
  held =
      ground (
        arith,
        i.held,
        e,
        total_cons relying finishing senders,
        total_cons holder finishing senders,
      );
  awake = ground (arith, i.awake, total_cons trier finishing senders);
  counted = ground (arith, i.counted, total_cons counter finishing senders);
}
SendStep-Invariant (complete_failed s senders n e) i = record {
  held = ground (arith, i.held, e);
  awake = i.awake;
  counted = i.counted;
}

pub SendReachable-Invariant : {p : SendSystem} → SendReachable p → Invariant p
unfolding total
SendReachable-Invariant (start sock) = record {
  held = ground arith;
  awake = ground arith;
  counted = ground arith;
}
SendReachable-Invariant (next p p' r st) = SendStep-Invariant st (SendReachable-Invariant r)

-- In every reachable state there is at most one of these: a thread that holds the send flag, or a send
-- in progress.
pub one_send : {p : SendSystem} → SendReachable p → total holder p.1 + p.0.outstanding ≤ 1
one_send r = ground (arith, (SendReachable-Invariant r).held)

-- No thread gets to use the null pointer that a failed `Dequeue` would leave, or gives up because
-- it has prepared no packet: no reachable state has such a thread.
pub never_without_packet :
    (s : SendState) (before after : List Sender) (packets : List Packet)
    → (¬ SendReachable (s, before ++ (crashing packets ∷ after)))
      × (¬ SendReachable (s, before ++ (prepared [] ∷ after)))
never_without_packet s before after packets = (
  λ r.
      ground (
        arith,
        (SendReachable-Invariant r).held.2,
        total_at relying before (crashing packets) after,
      ),
  λ r.
      ground
        (arith, (SendReachable-Invariant r).held.2, total_at relying before (prepared []) after),
)

-- No packet is stranded: in every reachable state with a counted packet, if the session is not being
-- disconnected and no send has failed, a send is in progress, or a thread holds the flag or is still
-- to try for it.
pub no_stranded_packet :
    (p : SendSystem)
    → SendReachable p
    → p.0.pending_disconnect ≡ false
    → p.0.failed ≡ false
    → 0 < p.0.use_count
    → 0 < p.0.outstanding + total holder p.1 + total trier p.1
no_stranded_packet p r up well some_packet =
    let i = SendReachable-Invariant r in ground (arith, i.held.1 up well, i.awake some_packet, up)

-- When all calls have returned and no send is in progress, a session that is not being disconnected
-- and had no failed send has nothing left in its queue, and its flag is down.
pub quiescent_nothing_queued :
    (s : SendState)
    → SendReachable (s, [])
    → s.pending_disconnect ≡ false
    → s.failed ≡ false
    → s.outstanding ≡ 0
    → (s.send_flag ≡ false) × (s.send_q ≡ [])
unfolding total
quiescent_nothing_queued s r up well none_going =
    let i = SendReachable-Invariant r in
    let idle : s.send_flag ≡ false = ground (arith, i.held.1 up well, none_going) in
    (idle, length-eq-zero s.send_q (ground (arith, i.awake, i.counted, idle, up)))
