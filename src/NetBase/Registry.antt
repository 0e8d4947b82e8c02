-- ===== src/NetBase/Registry.antt =====
-- The map of the handlers.
use jun_core_v.Common.{
  ℕ, ◌≡◌, refl, ap, ◌∙◌, List, [], ◌∷◌, Bool, true, false, ◌==◌, if◌then◌else◌, Option, none, some,
  arith,
}
use jun_core_v.Protocol.Fnv.{fnv1a}
use jun_core_v.Recv.{Handler, on_packet_received}
use jun_core_v.NetBase.{NetBase, find_handler, assign_handler, parsing, register_packet_handler}

find_handler-assign_handler :
    {App : Type 0} (id packet_id : ℕ) (handler : Handler App) (handlers : List (ℕ × Handler App))
    → find_handler id (assign_handler packet_id handler handlers)
      ≡ (if packet_id == id then some handler else find_handler id handlers)
unfolding find_handler assign_handler
find_handler-assign_handler id packet_id handler [] = refl
find_handler-assign_handler id packet_id handler ((id', old) ∷ handlers) =
    ground (arith, find_handler-assign_handler id packet_id handler handlers)

chosen :
    {App : Type 0} (b : Bool) (handler : Handler App) (old : Option (Handler App)) (user : ℕ)
    (payload : List ℕ) (app : App)
    → elim (if b then some handler else old) as (λ o. App × Bool) [
      | none ↦ (app, false)
      | some h ↦ h user payload app
    ]
      ≡ (if b
          then handler user payload app
          else elim old as (λ o. App × Bool) [ none ↦ (app, false) | some h ↦ h user payload app ])
chosen true handler old user payload app = refl
chosen false handler old user payload app = refl

-- After a registration, a packet of a session with a user is parsed and handed to the new handler
-- exactly if its id is the hash of the type's name, whatever was registered under that hash before;
-- every other packet goes where it went before.
pub received-registered :
    {App M : Type 0} (full_name : List ℕ) (parse : List ℕ → Option M)
    (handler : ℕ → M → App → App × Bool) (n : NetBase App) (user packet_id : ℕ) (payload : List ℕ)
    (app : App)
    → let n' = register_packet_handler full_name parse handler n in
      on_packet_received
        (λ id. find_handler id n'.packet_handlers)
        (some user)
        packet_id
        payload
        app
      ≡ (if fnv1a full_name == packet_id
          then elim (parse payload) [
            | none ↦ (app, false)
            | some message ↦ handler user message app
          ]
          else on_packet_received
              (λ id. find_handler id n.packet_handlers)
              (some user)
              packet_id
              payload
              app)
unfolding register_packet_handler on_packet_received parsing
received-registered {App} full_name parse handler n user packet_id payload app =
    ap
      (λ (found : Option (Handler App)). elim found as (λ o. App × Bool) [
        | none ↦ (app, false)
        | some h ↦ h user payload app
      ])
      (find_handler-assign_handler packet_id (fnv1a full_name) (parsing parse handler)
        n.packet_handlers)
    ∙ chosen (fnv1a full_name == packet_id) (parsing parse handler)
        (find_handler packet_id n.packet_handlers) user payload app
