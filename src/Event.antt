-- ===== src/Event.antt =====
-- JunCore/core/Event.h: an event with its handlers, and the tokens that end a subscription. The map
-- of handlers is a list of pairs with distinct identifiers. A handler belongs to the application: a
-- call of it makes any list of calls on the event that it is invoked by.
pub mod Distinct
pub mod Invoke
pub mod Tokens
mod Tests
use jun_core_v.Common.{
  ℕ, zero, suc, ◌+◌, ◌%◌, ◌^◌, ◌≡◌, List, [], ◌∷◌, Bool, true, false, not, Option, none, some, ◌==◌,
  length, if◌then◌else◌,
}

module _ {H : Type 0} where
  abbrev pub contains : ℕ → List (ℕ × H) → Bool
  contains id [] = false
  contains id ((i, h) ∷ handlers) = if i == id then true else contains id handlers

  -- `m_handlers[id] = handler`
  unfoldable pub assign : ℕ → H → List (ℕ × H) → List (ℕ × H)
  assign id handler [] = (id, handler) ∷ []
  assign id handler ((i, h) ∷ handlers) =
      if i == id then (id, handler) ∷ handlers else (i, h) ∷ assign id handler handlers

  unfoldable pub erase : ℕ → List (ℕ × H) → List (ℕ × H)
  erase id [] = []
  erase id ((i, h) ∷ handlers) = if i == id then handlers else (i, h) ∷ erase id handlers

pub record Event (H : Type 0) : Type 0 where
  pub handlers : List (ℕ × H)
  pub next_id : ℕ

-- A call on the event. What ends a subscription names it by its identifier.
pub data Call (H : Type 0) : Type 0 where
  subscribing : H → Call H
  unsubscribing : ℕ → Call H
  clearing : Call H

module _ {H : Type 0} where
  -- `Subscribe`, with the identifier that its token ends.
  unfoldable pub subscribe : H → Event H → Event H × ℕ
  subscribe handler e = (
    record e { handlers = assign e.next_id handler e.handlers; next_id = (e.next_id + 1) % 2 ^ 64 },
    e.next_id,
  )

  -- The function that a token holds.
  abbrev pub end_subscription : ℕ → Event H → Event H
  end_subscription id e = record e { handlers = erase id e.handlers }

  abbrev pub count : Event H → ℕ
  count e = length e.handlers

  abbrev pub has_subscribers : Event H → Bool
  has_subscribers e = not (count e == 0)

  abbrev pub clear : Event H → Event H
  clear e = record e { handlers = [] }

  unfoldable pub make_call : Call H → Event H → Event H
  make_call (subscribing handler) e = (subscribe handler e).0
  make_call (unsubscribing id) e = end_subscription id e
  make_call clearing e = clear e

  unfoldable pub make_calls : List (Call H) → Event H → Event H
  make_calls [] e = e
  make_calls (c ∷ calls) e = make_calls calls (make_call c e)

  abbrev call_first : ℕ × H → Event H × List (ℕ × H) → Event H × List (ℕ × H)
  call_first p (e, calls) = (e, p ∷ calls)

  -- The loop of `Invoke` over its copy, with the handlers that it calls; `run` is what a call of a
  -- handler does to the event.
  unfoldable pub invoke_loop :
      (H → Event H → List (Call H)) → List (ℕ × H) → Event H → Event H × List (ℕ × H)
  invoke_loop run [] e = (e, [])
  invoke_loop run ((id, handler) ∷ copy) e =
      let called = call_first (id, handler) (invoke_loop run copy (make_calls (run handler e) e)) in
      let skipped = invoke_loop run copy e in if contains id e.handlers then called else skipped

  -- `order` is the order in which the copy of an `unordered_map` with these pairs is traversed.
  unfoldable pub invoke :
      (List (ℕ × H) → List (ℕ × H))
      → (H → Event H → List (Call H))
      → Event H
      → Event H × List (ℕ × H)
  invoke order run e = invoke_loop run (order e.handlers) e

-- `Subscription`: the identifier that `m_unsubscribe` would erase.
abbrev pub Subscription : Type 0
Subscription = Option ℕ

abbrev pub is_valid : Subscription → Bool
is_valid none = false
is_valid (some id) = true

-- An event with the variables that hold tokens for it.
pub record Subscriptions (H : Type 0) : Type 0 where
  pub event : Event H
  pub tokens : ℕ → Subscription

abbrev pub put : (ℕ → Subscription) → ℕ → Subscription → ℕ → Subscription
put tokens i token j = if i == j then token else tokens j

module _ {H : Type 0} where
  abbrev pub end_token : Subscription → Event H → Event H
  end_token none e = e
  end_token (some id) e = end_subscription id e

  -- `Unsubscribe` on variable `i`, which is also its destructor.
  unfoldable pub unsubscribe : ℕ → Subscriptions H → Subscriptions H
  unsubscribe i s = record s {
    event = end_token (s.tokens i) s.event;
    tokens = put s.tokens i none;
  }

  unfoldable pub detach : ℕ → Subscriptions H → Subscriptions H
  detach i s = record s { tokens = put s.tokens i none }

  -- Construction of variable `i` from variable `j`.
  unfoldable pub move_construct : ℕ → ℕ → Subscriptions H → Subscriptions H
  move_construct i j s = record s { tokens = put (put s.tokens i (s.tokens j)) j none }

  -- Assignment of variable `j` to variable `i`.
  unfoldable pub move_assign : ℕ → ℕ → Subscriptions H → Subscriptions H
  move_assign i j s = if i == j then s else move_construct i j (unsubscribe i s)

  -- A token from `Subscribe` is constructed in variable `i`.
  unfoldable pub subscribe_token : ℕ → H → Subscriptions H → Subscriptions H
  subscribe_token i handler s =
      let (e, id) = subscribe handler s.event in
      record s { event = e; tokens = put s.tokens i (some id) }
