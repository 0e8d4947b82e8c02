-- ===== src/SendPath/Alone.antt =====
-- One packet, sent by the only thread on a session with socket 5.
use jun_core_v.Common.{refl, true, [], ◌∷◌, ◌++◌}
use jun_core_v.SendPath.{
  SendState, Sender, Packet, act, call_send_packet, complete, SendReachable, start, next, fresh,
  sender_step, dequeue_packet, claim_packet, checking, linking, counting, exchanging, holding,
  sizing, collecting, dequeuing, claiming, prepared, finishing, unflagging, looking, completing,
}

-- One step of the only thread.
alone :
    {s : SendState} (sender : Sender)
    → SendReachable (s, sender ∷ [])
    → SendReachable ((sender_step sender s).0, ([] ++ (sender_step sender s).1) ++ [])
alone {s} sender r = next _ _ r (act s [] sender [])

abbrev pub counted : Packet → SendState
counted packet = record (fresh 5) { send_q = packet ∷ []; use_count = 1; accepted = packet ∷ [] }

pub counted-Reachable : (packet : Packet) → SendReachable (counted packet, exchanging ∷ [])
unfolding sender_step
counted-Reachable packet = alone counting (
    alone (linking packet)
      (alone (checking packet) (next _ _ (start 5) (call_send_packet (fresh 5) [] packet))))

abbrev pub taken_off : Packet → SendState
taken_off packet = record (fresh 5) { send_flag = true; accepted = packet ∷ [] }

pub taken_off-Reachable :
    (packet : Packet) → SendReachable (taken_off packet, prepared (packet ∷ []) ∷ [])
unfolding sender_step dequeue_packet claim_packet
taken_off-Reachable packet = alone (collecting 199 (packet ∷ [])) (
    alone (claiming 199 []) (
      alone (dequeuing 199 []) (
        alone (collecting 200 [])
          (alone sizing (alone holding (alone exchanging (counted-Reachable packet)))))))

abbrev pub sent : Packet → SendState
sent packet = record (fresh 5) { accepted = packet ∷ []; on_wire = packet ∷ [] }

pub sent-Reachable : (packet : Packet) → SendReachable (sent packet, [])
unfolding sender_step
sent-Reachable packet =
    let going = alone (prepared (packet ∷ [])) (taken_off-Reachable packet) in
    alone completing
      (alone looking (alone unflagging (alone finishing (next _ _ going (complete _ [] 0 refl)))))
