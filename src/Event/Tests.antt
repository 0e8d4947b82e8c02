-- ===== src/Event/Tests.antt =====
-- JunCore/core/Event.h at concrete subscriptions.
use jun_core_v.Common.{ℕ, ◌≡◌, refl, some, List, [], ◌∷◌, arith}
use jun_core_v.Event.{
  Event, Call, Subscriptions, unsubscribing, erase, invoke, invoke_loop, make_call, make_calls,
  subscribe, subscribe_token, unsubscribe, move_assign, move_construct,
}
use jun_core_v.Event.Distinct.{Absent}
use jun_core_v.Event.Invoke.{invoke_loop_skips}
use jun_core_v.Event.Tokens.{Reachable, start, next, new_token, assign_token, no_subscriptions}

-- Handlers that end the subscription which they name.
abbrev end_named : ℕ → Event ℕ → List (Call ℕ)
end_named h e = unsubscribing h ∷ []

abbrev two_handlers : Event ℕ
two_handlers = record { handlers = (0, 0) ∷ (1, 1) ∷ []; next_id = 2 }

-- The first handler ends the subscription of the second, which is then not called.
abbrev one_gone : Event ℕ
one_gone = record { handlers = (0, 1) ∷ []; next_id = 2 }

invoke_loop_skips_example : Absent 1 (invoke_loop end_named ((0, 1) ∷ (1, 0) ∷ []) one_gone).1
invoke_loop_skips_example =
    invoke_loop_skips end_named 1 (λ h e. omega arith) 1 ((0, 1) ∷ (1, 0) ∷ []) one_gone refl
      (omega arith) (omega arith)

-- A subscription whose token is moved from variable 0 to variable 5.
abbrev moved : Subscriptions ℕ
moved = move_assign 5 0 (subscribe_token 0 7 no_subscriptions)

moved_reached : Reachable moved
moved_reached =
    next _ _ (next _ _ start (new_token 0 7 no_subscriptions refl (omega arith)))
      (assign_token 5 0 (subscribe_token 0 7 no_subscriptions))

moved_token : moved.tokens 5 ≡ some 0
unfolding move_assign subscribe_token subscribe unsubscribe move_construct
moved_token = refl

second_skipped : (invoke (λ l. l) (λ h e. unsubscribing 1 ∷ []) two_handlers).1 ≡ (0, 0) ∷ []
unfolding invoke invoke_loop make_calls make_call erase
second_skipped = refl
