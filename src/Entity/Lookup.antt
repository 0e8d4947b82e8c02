-- ===== src/Entity/Lookup.antt =====
-- What JunCore/logic/Entity.h finds under a type, against the vector of components.
use jun_core_v.Common.{
  ℕ, ◌≡◌, ◌≢◌, refl, sym, ◌∙◌, List, [], ◌∷◌, ◌++◌, true, false, ◌==◌, if◌then◌else◌, Bool-cases,
  inl, inr, Option, none, some, arith,
}
use jun_core_v.Entity.{
  Component, Entity, add_component, get_component, erase_component, remove_found, remove_component,
  update_components, fixed_update_components,
}

-- The component of a type in a list.
abbrev pub find : ℕ → List Component → Option ℕ
find kind [] = none
find kind (c ∷ cs) = if c.kind == kind then some c.pointer else find kind cs

-- Neither this type nor this pointer stands in the list.
abbrev pub Unused : ℕ → ℕ → List Component → Type 0
Unused p k [] = Unit {0}
Unused p k (c ∷ cs) = (c.pointer ≢ p) × (c.kind ≢ k) × Unused p k cs

abbrev pub Distinct : List Component → Type 0
Distinct [] = Unit {0}
Distinct (c ∷ cs) = Unused c.pointer c.kind cs × Distinct cs

-- The pointer of a new component.
abbrev pub Fresh : ℕ → List Component → Type 0
Fresh p [] = Unit {0}
Fresh p (c ∷ cs) = (c.pointer ≢ p) × Fresh p cs

find-append :
    (j : ℕ) (cs : List Component) (c : Component)
    → find c.kind cs ≡ none
    → find j (cs ++ (c ∷ [])) ≡ (if c.kind == j then some c.pointer else find j cs)
find-append j [] c h = refl
find-append j (x ∷ cs) c h = ground (arith, find-append j cs c)

find-Unused : (p k : ℕ) (cs : List Component) → Unused p k cs → find k cs ≡ none
find-Unused p k [] u = refl
find-Unused p k (c ∷ cs) u = ground (arith, find-Unused p k cs u.2)

find_other : (p q k t : ℕ) (cs : List Component) → Unused p q cs → find k cs ≡ some t → p ≢ t
find_other p q k t [] u h = cc
find_other p q k t (c ∷ cs) u h = ground (arith, find_other p q k t cs u.2)

-- Taking out the component that is found under a type takes the type out, and no other.
find-erase_component :
    (k t j : ℕ) (cs : List Component)
    → Distinct cs
    → find k cs ≡ some t
    → find j (erase_component t cs) ≡ (if k == j then none else find j cs)
unfolding erase_component
find-erase_component k t j [] d h = cc
find-erase_component k t j (c ∷ cs) d h = ground (
  arith,
  find-Unused c.pointer c.kind cs d.0,
  find_other c.pointer c.kind k t cs d.0,
  find-erase_component k t j cs d.1,
)

Unused-erase_component :
    (p k t : ℕ) (cs : List Component) → Unused p k cs → Unused p k (erase_component t cs)
unfolding erase_component
Unused-erase_component p k t [] u = tt
Unused-erase_component p k t (c ∷ cs) u = elim (Bool-cases (c.pointer == t)) [
  | inl e ↦ rw e u.2
  | inr e ↦ rw e (u.0, u.1, Unused-erase_component p k t cs u.2)
]

Distinct-erase_component :
    (t : ℕ) (cs : List Component) → Distinct cs → Distinct (erase_component t cs)
unfolding erase_component
Distinct-erase_component t [] d = tt
Distinct-erase_component t (c ∷ cs) d = elim (Bool-cases (c.pointer == t)) [
  | inl e ↦ rw e d.1
  | inr e ↦
      rw e (Unused-erase_component c.pointer c.kind t cs d.0, Distinct-erase_component t cs d.1)
]

Unused-append :
    (p k : ℕ) (cs : List Component) (c : Component)
    → Unused p k cs
    → c.pointer ≢ p
    → c.kind ≢ k
    → Unused p k (cs ++ (c ∷ []))
Unused-append p k [] c u m n = (m, n, tt)
Unused-append p k (x ∷ cs) c u m n = (u.0, u.1, Unused-append p k cs c u.2 m n)

Distinct-append :
    (cs : List Component) (c : Component)
    → Distinct cs
    → Fresh c.pointer cs
    → find c.kind cs ≡ none
    → Distinct (cs ++ (c ∷ []))
Distinct-append [] c d f h = (tt, tt)
Distinct-append (x ∷ cs) c d f h = (
  Unused-append x.pointer x.kind cs c d.0 (λ e. f.0 (sym e)) (λ e. ground (arith, e)),
  Distinct-append cs c d.1 f.1 (ground arith),
)

erase_component-append :
    (cs : List Component) (c : Component)
    → Fresh c.pointer cs
    → erase_component c.pointer (cs ++ (c ∷ [])) ≡ cs
unfolding erase_component
erase_component-append [] c f = ground arith
erase_component-append (x ∷ cs) c f = ground (arith, erase_component-append cs c f.1)

-- What a game does with an entity, when it adds no component of a type that is there.
pub data Step : Entity → Entity → Type 0 where
  add :
      (e : Entity) (pointer kind : ℕ)
      → Fresh pointer e.components
      → e.component_map kind ≡ none
      → Step e (add_component pointer kind e)
  remove : (e : Entity) (kind : ℕ) → Step e (remove_component kind e).0
  update : (e : Entity) → Step e (update_components e)
  fixed_update : (e : Entity) → Step e (fixed_update_components e)

pub data Reachable : Entity → Type 0 where
  start :
      (address : ℕ)
      → Reachable
          (record { address = address; components = []; component_map = λ k. none; calls = [] })
  next : (e e' : Entity) → Reachable e → Step e e' → Reachable e'

record Matching (e : Entity) : Type 0 where
  same : (k : ℕ) → e.component_map k ≡ find k e.components
  distinct : Distinct e.components

remove_found-Matching :
    (e : Entity) (k : ℕ) (t : Option ℕ)
    → e.component_map k ≡ t
    → Matching e
    → Matching (remove_found k t e).0
remove_found-Matching e k none h m = m
remove_found-Matching e k (some t) h m = record {
  same = λ j.
      ground
        (arith, find-erase_component k t j e.components m.distinct (sym (m.same k) ∙ h), m.same j);
  distinct = Distinct-erase_component t e.components m.distinct;
}

Step-Matching : {e e' : Entity} → Step e e' → Matching e → Matching e'
unfolding add_component remove_component update_components fixed_update_components
Step-Matching (add e p k f n) m =
    let c : Component = record { pointer = p; kind = k; owner = e.address } in
    let absent : find k e.components ≡ none = sym (m.same k) ∙ n in
    record {
      same = λ j. ground (arith, find-append j e.components c absent, m.same j);
      distinct = Distinct-append e.components c m.distinct f absent;
    }
Step-Matching (remove e k) m = remove_found-Matching e k (e.component_map k) refl m
Step-Matching (update e) m = record { same = m.same; distinct = m.distinct }
Step-Matching (fixed_update e) m = record { same = m.same; distinct = m.distinct }

Reachable-Matching : (e : Entity) → Reachable e → Matching e
Reachable-Matching _ (start address) = record { same = λ k. refl; distinct = tt }
Reachable-Matching _ (next e _ r st) = Step-Matching st (Reachable-Matching e r)

-- As long as no component is added whose type is already there, `GetComponent` finds under every type
-- the component of that type that stands in the vector, and null when there is none.
pub get_component-find :
    (e : Entity) → Reachable e → (k : ℕ) → get_component k e ≡ find k e.components
get_component-find e r k = (Reachable-Matching e r).same k

-- If a component is added whose type is already there, and then the component of that type is removed,
-- the vector is as before, so that the old component is still updated, but it can neither be found
-- nor removed any more.
pub add_component_orphans :
    (e : Entity) (p k old : ℕ)
    → Reachable e
    → e.component_map k ≡ some old
    → Fresh p e.components
    → ((remove_component k (add_component p k e)).0.components ≡ e.components)
      × (find k e.components ≡ some old)
      × (get_component k (remove_component k (add_component p k e)).0 ≡ none)
      × ((remove_component k (remove_component k (add_component p k e)).0).1 ≡ false)
unfolding add_component remove_component
add_component_orphans e p k old r there f =
    let c : Component = record { pointer = p; kind = k; owner = e.address } in
    let own : (k == k) ≡ true = ground arith in
    (
      rw own (erase_component-append e.components c f),
      sym ((Reachable-Matching e r).same k) ∙ there,
      ground arith,
      ground arith,
    )
