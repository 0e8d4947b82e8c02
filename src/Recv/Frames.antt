-- ===== src/Recv/Frames.antt =====
-- A byte stream as whole packets and the start of one that has not arrived yet.
use jun_core_v.Common.{ℕ, ◌≤◌, ◌<◌, ◌⊎◌, ◌||◌, List, [], ◌∷◌, ◌++◌, Bool, Option, length, take}
use jun_core_v.Common.LittleEndian.{le_value}
use jun_core_v.Protocol.{max_packet_size}
use jun_core_v.Protocol.Roundtrip.{packet_bytes}
use jun_core_v.Recv.{Handler, on_packet_received}

-- An id and a payload.
abbrev pub Packet : Type 0
Packet = ℕ × List ℕ

abbrev pub stream : List Packet → List ℕ
stream [] = []
stream ((id, payload) ∷ ps) = packet_bytes id payload ++ stream ps

-- Ids are 32-bit words.
abbrev pub AreWords : List Packet → Type 0
AreWords [] = Unit {0}
AreWords ((id, _) ∷ ps) = (id < 4294967296) × AreWords ps

-- Too short for a header, or a header of a packet that is longer than what is here.
abbrev pub IsPartial : List ℕ → Type 0
IsPartial bytes =
    (length bytes < 8)
    ⊎ ((length bytes < le_value (take 4 bytes)) × (le_value (take 4 bytes) ≤ max_packet_size))

-- The packets go to their handlers in order; whether one of them disconnected the session.
unfoldable pub deliver :
    {App : Type 0} → (ℕ → Option (Handler App)) → Option ℕ → Bool → List Packet → App → App × Bool
deliver handlers user done [] app = (app, done)
deliver handlers user done ((id, payload) ∷ ps) app =
    let (app', disconnected) = on_packet_received handlers user id payload app in
    deliver handlers user (done || disconnected) ps app'
