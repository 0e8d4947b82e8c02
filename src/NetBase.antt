-- ===== src/NetBase.antt =====
-- JunCore/network/NetBase.h: the handlers of the packets. What `OnPacketReceived` does with them is in
-- module Recv.
pub mod Registry
pub mod Delivery
mod Tests
use jun_core_v.Common.{ℕ, List, [], ◌∷◌, Bool, true, false, ◌==◌, if◌then◌else◌, Option, none, some}
use jun_core_v.Protocol.Fnv.{fnv1a}
use jun_core_v.Recv.{Handler}

module _ {App : Type 0} where
  -- `packet_handlers_.find`
  unfoldable pub find_handler : ℕ → List (ℕ × Handler App) → Option (Handler App)
  find_handler packet_id [] = none
  find_handler packet_id ((id, handler) ∷ handlers) =
      if id == packet_id then some handler else find_handler packet_id handlers

  -- `packet_handlers_[packet_id] = handler`
  unfoldable pub assign_handler : ℕ → Handler App → List (ℕ × Handler App) → List (ℕ × Handler App)
  assign_handler packet_id handler [] = (packet_id, handler) ∷ []
  assign_handler packet_id handler ((id, old) ∷ handlers) =
      if id == packet_id
      then (id, handler) ∷ handlers
      else (id, old) ∷ assign_handler packet_id handler handlers

  -- The handler that is registered: it parses the payload, and calls `handler` if that succeeds.
  -- `parse` is `ParseFromArray`.
  unfoldable pub parsing :
      {M : Type 0} → (List ℕ → Option M) → (ℕ → M → App → App × Bool) → Handler App
  parsing parse handler user payload app = elim (parse payload) [
    | none ↦ (app, false)
    | some message ↦ handler user message app
  ]

pub record NetBase (App : Type 0) : Type 0 where
  pub packet_handlers : List (ℕ × Handler App)
  pub initialized : Bool

unfoldable pub new_net_base : {App : Type 0} → NetBase App
new_net_base = record { packet_handlers = []; initialized = false }

-- `RegisterPacketHandler`, for the message type with this full name.
unfoldable pub register_packet_handler :
    {App M : Type 0}
    → List ℕ
    → (List ℕ → Option M)
    → (ℕ → M → App → App × Bool)
    → NetBase App
    → NetBase App
unfolding assign_handler parsing
register_packet_handler full_name parse handler n = record n {
  packet_handlers = assign_handler (fnv1a full_name) (parsing parse handler) n.packet_handlers;
}

-- `Initialize`, with the `RegisterPacketHandlers` of the application.
unfoldable pub initialize : {App : Type 0} → (NetBase App → NetBase App) → NetBase App → NetBase App
initialize register n = if n.initialized then n else record (register n) { initialized = true }
