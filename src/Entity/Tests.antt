-- ===== src/Entity/Tests.antt =====
-- JunCore/logic/Entity.h at a concrete entity.
use jun_core_v.Common.{map, ◌≡◌, refl, [], ◌∷◌, none, arith}
use jun_core_v.Entity.{
  Entity, move_entity, add_component, get_component, remove_component, update_components,
  erase_component, on_update, Call,
}
use jun_core_v.Entity.Lookup.{Reachable, start, next, add}

abbrev bare : Entity
bare = record { address = 9; components = []; component_map = λ k. none; calls = [] }

-- Components 100 and 101 of the types 1 and 2.
abbrev two_components : Entity
two_components = add_component 101 2 (add_component 100 1 bare)

two_components_reached : Reachable two_components
unfolding add_component
two_components_reached =
    next _ _ (next _ _ (start 9) (add bare 100 1 tt refl))
      (add (add_component 100 1 bare) 101 2 (omega arith, tt) refl)

removed : get_component 1 (remove_component 1 two_components).0 ≡ none
unfolding add_component remove_component
removed = refl

updated :
    (update_components
      (remove_component 1 (add_component 101 1 (add_component 100 1 bare))).0).calls
    ≡ Call.on_attach 100 ∷ Call.on_attach 101 ∷ Call.on_detach 101 ∷ on_update 100 ∷ []
unfolding add_component remove_component erase_component update_components
updated = refl

-- A moved entity keeps components that name the old one as their owner.
moved_owner : map (λ c. c.owner) (move_entity 5 two_components).components ≡ 9 ∷ 9 ∷ []
unfolding add_component move_entity
moved_owner = refl
