-- ===== src/SendPath/Tests.antt =====
-- The send path at concrete runs: one packet of two bytes on a session with socket 5.
use jun_core_v.Common.{◌+◌, ◌<◌, ◌≡◌, refl, [], ◌∷◌, ◌++◌, arith}
use jun_core_v.Common.Weights.{total, gather}
use jun_core_v.SendPath.{Packet, exchanging, prepared}
use jun_core_v.SendPath.Weights.{holder, trier, taken}
use jun_core_v.SendPath.Wakeup.{no_stranded_packet}
use jun_core_v.SendPath.Alone.{counted, counted-Reachable, taken_off, taken_off-Reachable}
use jun_core_v.SendPath.Order.{sends_in_order}

abbrev hello : Packet
hello = 104 ∷ 105 ∷ []

no_stranded_packet_example :
    0 < (counted hello).outstanding + total holder (exchanging ∷ []) + total trier (exchanging ∷ [])
no_stranded_packet_example =
    no_stranded_packet (counted hello, exchanging ∷ []) (counted-Reachable hello) refl refl
      (omega arith)

sends_in_order_example :
    (taken_off hello).accepted
    ≡ (taken_off hello).on_wire
      ++ (gather taken (prepared (hello ∷ []) ∷ []) ++ (taken_off hello).send_q)
sends_in_order_example =
    sends_in_order (taken_off hello, prepared (hello ∷ []) ∷ []) (taken_off-Reachable hello)
