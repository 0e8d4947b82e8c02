-- ===== src/Event/Invoke.antt =====
-- Which handlers `Invoke` of JunCore/core/Event.h calls.
use jun_core_v.Common.{
  ℕ, suc, ◌+◌, ◌*◌, ◌^◌, ◌≤◌, ◌<◌, ◌≡◌, ◌≢◌, refl, ap, List, [], ◌∷◌, true, false, length, arith,
  sym, ◌∙◌, Bool-cases, inl, inr,
}
use jun_core_v.Event.Distinct.{
  Absent, Distinct, contains-assign, contains-erase_other, contains-erase_le,
}
use jun_core_v.Event.{
  Event, Call, subscribing, unsubscribing, clearing, contains, subscribe, make_call, make_calls,
  invoke_loop, invoke,
}

module _ {H : Type 0} where
  -- The handler with this identifier is gone for good: it is not registered, and its identifier is
  -- not given out again by as many subscriptions as there is room for.
  record Gone (id room : ℕ) (e : Event H) : Type 0 where
    not_there : contains id e.handlers ≡ false
    given_out : id < e.next_id
    in_range : e.next_id + room < 2 ^ 64

  make_call-Gone :
      (id room : ℕ) (c : Call H) (e : Event H) → Gone id (suc room) e → Gone id room (make_call c e)
  unfolding make_call subscribe
  make_call-Gone id room (subscribing h) e g =
      ground (arith, contains-assign id e.next_id h e.handlers)
  make_call-Gone id room (unsubscribing i) e g = ground (arith, contains-erase_le id i e.handlers)
  make_call-Gone id room clearing e g = ground arith

  make_calls-Gone :
      (id room : ℕ) (calls : List (Call H)) (e : Event H)
      → Gone id (length calls + room) e
      → Gone id room (make_calls calls e)
  unfolding make_calls
  make_calls-Gone id room [] e g = ground arith
  make_calls-Gone id room (c ∷ calls) e g =
      make_calls-Gone id room calls (make_call c e)
        (make_call-Gone id (length calls + room) c e (ground arith))

  module _ (run : H → Event H → List (Call H)) (most : ℕ)
      (few : (h : H) (e : Event H) → length (run h e) ≤ most) where
    loop-Gone :
        (id : ℕ) (copy : List (ℕ × H)) (e : Event H)
        → Gone id (most * length copy) e
        → Absent id (invoke_loop run copy e).1
    unfolding invoke_loop
    loop-Gone id [] e g = tt
    loop-Gone id ((i, h) ∷ copy) e g =
        let i_there : i ≡ id → contains i e.handlers ≡ true → ⊥ =
          λ p q. cc (ap (λ (k : ℕ). contains k e.handlers) p, g.not_there) in
        let later =
          loop-Gone id copy (make_calls (run h e) e)
            (make_calls-Gone id (most * length copy) (run h e) e (grind (arith, few h e))) in
        elim (Bool-cases (contains i e.handlers)) [
          | inl there ↦ rw there ((λ p. absurd (i_there p there)), later)
          | inr away ↦ rw away (loop-Gone id copy e (grind arith))
        ]

  -- Once a handler is not registered, the rest of an `Invoke` does not call it, whatever the handlers
  -- in between do, as long as identifiers are not used up: each handler that is called subscribes or
  -- unsubscribes at most `most` times.
  pub invoke_loop_skips :
      (run : H → Event H → List (Call H)) (most : ℕ)
      → ((h : H) (e : Event H) → length (run h e) ≤ most)
      → (id : ℕ) (copy : List (ℕ × H)) (e : Event H) → contains id e.handlers ≡ false
      → id < e.next_id
      → e.next_id + most * length copy < 2 ^ 64
      → Absent id (invoke_loop run copy e).1
  invoke_loop_skips run most few id copy e gone old room =
      loop-Gone run most few id copy e
        (record { not_there = gone; given_out = old; in_range = room })

  -- The calls leave the handler `id` alone.
  abbrev pub Spares : ℕ → List (Call H) → Type 0
  Spares id [] = Unit {0}
  Spares id (subscribing h ∷ calls) = Spares id calls
  Spares id (unsubscribing i ∷ calls) = (i ≢ id) × Spares id calls
  Spares id (clearing ∷ calls) = ⊥

  make_calls-Spares :
      (id : ℕ) (calls : List (Call H)) (e : Event H)
      → Spares id calls
      → contains id e.handlers ≡ true
      → contains id (make_calls calls e).handlers ≡ true
  unfolding make_calls make_call subscribe
  make_calls-Spares id [] e s h = h
  make_calls-Spares id (subscribing x ∷ calls) e s h =
      make_calls-Spares id calls (make_call (subscribing x) e) s
        (ground (arith, contains-assign id e.next_id x e.handlers))
  make_calls-Spares id (unsubscribing i ∷ calls) e s h =
      make_calls-Spares id calls (make_call (unsubscribing i) e) s.1
        (contains-erase_other id i e.handlers s.0 ∙ h)
  make_calls-Spares id (clearing ∷ calls) e s h = absurd s

  abbrev pub Registered : List (ℕ × H) → List (ℕ × H) → Type 0
  Registered [] l = Unit {0}
  Registered ((i, h) ∷ copy) l = (contains i l ≡ true) × Registered copy l

  module _ (run : H → Event H → List (Call H)) where
    -- No handler ends the subscription of another one.
    abbrev pub Polite : List (ℕ × H) → Type 0
    Polite [] = Unit {0}
    Polite ((i, h) ∷ copy) = ((e : Event H) (j : ℕ) → j ≢ i → Spares j (run h e)) × Polite copy

    make_calls-Registered :
        (calls : List (Call H)) (i : ℕ) (copy : List (ℕ × H)) (e : Event H)
        → ((j : ℕ) → j ≢ i → Spares j calls)
        → Absent i copy
        → Registered copy e.handlers
        → Registered copy (make_calls calls e).handlers
    make_calls-Registered calls i [] e s a r = tt
    make_calls-Registered calls i ((j, h) ∷ copy) e s a r =
        (make_calls-Spares j calls e (s j a.0) r.0, make_calls-Registered calls i copy e s a.1 r.1)

    loop_calls :
        (copy : List (ℕ × H)) (e : Event H)
        → Distinct copy
        → Registered copy e.handlers
        → Polite copy
        → (invoke_loop run copy e).1 ≡ copy
    unfolding invoke_loop
    loop_calls [] e d r p = refl
    loop_calls ((i, h) ∷ copy) e d r p = rw r.0 (
        ap (◌∷◌ (i, h)) (
          loop_calls copy (make_calls (run h e) e) d.1
            (make_calls-Registered (run h e) i copy e (p.0 e) d.0 r.1) p.1))

  -- A copy of a map holds what the map holds.
  copy-Registered :
      (copy l : List (ℕ × H))
      → ((j : ℕ) → contains j copy ≡ true → contains j l ≡ true)
      → Registered copy l
  copy-Registered [] l h = tt
  copy-Registered ((i, x) ∷ copy) l h =
      (h i (ground arith), copy-Registered copy l (λ j there. h j (ground (arith, there))))

  -- If no identifier is registered twice, the copy of the map is traversed in any order that goes
  -- through its identifiers once each, and no handler ends the subscription of another one, then
  -- `Invoke` calls each handler once, in that order; a handler may end its own subscription and
  -- subscribe others, which are not called.
  pub invoke_each_once :
      (order : List (ℕ × H) → List (ℕ × H))
      → ((l : List (ℕ × H)) → Distinct l → Distinct (order l))
      → ((l : List (ℕ × H)) (j : ℕ) → contains j (order l) ≡ contains j l)
      → (run : H → Event H → List (Call H)) (e : Event H) → Distinct e.handlers
      → Polite run (order e.handlers)
      → (invoke order run e).1 ≡ order e.handlers
  unfolding invoke
  invoke_each_once order distinct same run e d p =
      loop_calls run (order e.handlers) e (distinct e.handlers d)
        (copy-Registered (order e.handlers) e.handlers (λ j there. sym (same e.handlers j) ∙ there))
        p
