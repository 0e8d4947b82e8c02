-- ===== src/Entity.antt =====
-- JunCore/logic/Entity.h and Component.h: the components of an entity. A component is known by its
-- pointer and its type; the virtual functions of a component belong to the game and are recorded.
pub mod Lookup
mod Tests
use jun_core_v.Common.{
  ℕ, ◌+◌, ◌≡◌, ◌≢◌, List, [], ◌∷◌, ◌++◌, map, Bool, true, false, ◌==◌, if◌then◌else◌, Option, none,
  some,
}

pub record Component : Type 0 where
  pub pointer : ℕ
  pub kind : ℕ
  pub owner : ℕ

-- A call of a virtual function on a component.
pub data Call : Type 0 where
  on_attach on_detach on_update on_fixed_update : ℕ → Call

-- `component_map` takes a type to a pointer; `calls` records the calls that were made.
pub record Entity : Type 0 where
  pub address : ℕ
  pub components : List Component
  pub component_map : ℕ → Option ℕ
  pub calls : List Call

abbrev pub assign : (ℕ → Option ℕ) → ℕ → Option ℕ → ℕ → Option ℕ
assign m k p j = if k == j then p else m j

-- `AddComponent<T>`, with the pointer that `make_unique` returns.
unfoldable pub add_component : ℕ → ℕ → Entity → Entity
add_component pointer kind e = record e {
  components = e.components ++ (record { pointer = pointer; kind = kind; owner = e.address } ∷ []);
  component_map = assign e.component_map kind (some pointer);
  calls = e.calls ++ (on_attach pointer ∷ []);
}

-- `GetComponent<T>`
abbrev pub get_component : ℕ → Entity → Option ℕ
get_component kind e = e.component_map kind

abbrev is_some : Option ℕ → Bool
is_some none = false
is_some (some p) = true

-- `HasComponent<T>`
abbrev pub has_component : ℕ → Entity → Bool
has_component kind e = is_some (e.component_map kind)

-- The loop that takes a component out of the vector.
unfoldable pub erase_component : ℕ → List Component → List Component
erase_component target [] = []
erase_component target (c ∷ cs) = if c.pointer == target then cs else c ∷ erase_component target cs

abbrev pub remove_found : ℕ → Option ℕ → Entity → Entity × Bool
remove_found kind none e = (e, false)
remove_found kind (some target) e = (
  record e {
    components = erase_component target e.components;
    component_map = assign e.component_map kind none;
    calls = e.calls ++ (on_detach target ∷ []);
  },
  true,
)

-- `RemoveComponent<T>`
unfoldable pub remove_component : ℕ → Entity → Entity × Bool
remove_component kind e = remove_found kind (e.component_map kind) e

-- `UpdateComponents`
unfoldable pub update_components : Entity → Entity
update_components e = record e { calls = e.calls ++ map (λ c. on_update c.pointer) e.components }

-- `FixedUpdateComponents`
unfoldable pub fixed_update_components : Entity → Entity
fixed_update_components e = record e {
  calls = e.calls ++ map (λ c. on_fixed_update c.pointer) e.components;
}

-- The entity that the move constructor makes at an address.
unfoldable pub move_entity : ℕ → Entity → Entity
move_entity address e = record e { address = address; calls = [] }
