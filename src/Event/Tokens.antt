-- ===== src/Event/Tokens.antt =====
-- Who may end a subscription of JunCore/core/Event.h: the tokens and the map of handlers.
use jun_core_v.Common.{
  ℕ, ◌+◌, ◌^◌, ◌<◌, ◌≡◌, ◌≢◌, refl, sym, ap, ◌∙◌, [], true, none, some, arith, ◌==◌, Bool-cases,
  inl, inr, ◌⊎◌, ◌↔◌, ℕ_discrete,
}
use jun_core_v.Event.{
  Subscription, end_token, Subscriptions, put, contains, erase, subscribe, unsubscribe,
  move_construct, move_assign, subscribe_token,
}
use jun_core_v.Event.Distinct.{
  Distinct, Distinct-assign, Distinct-erase, contains-assign, contains-erase_self,
  contains-erase_other,
}

put-some :
    (tokens : ℕ → Subscription) (i j k : ℕ)
    → put tokens i none j ≡ some k
    → (i ≢ j) × (tokens j ≡ some k)
put-some tokens i j k h = ground arith

put_other :
    (tokens : ℕ → Subscription) (i j : ℕ) (t : Subscription) → i ≢ j → put tokens i t j ≡ tokens j
put_other tokens i j t h = ground arith

put_self : (tokens : ℕ → Subscription) (i : ℕ) (t : Subscription) → put tokens i t i ≡ t
put_self tokens i t = ground arith

put_moved :
    (tokens : ℕ → Subscription) (i j k m : ℕ)
    → put (put tokens i (tokens j)) j none k ≡ some m
    → (j ≢ k) × (((i ≡ k) × (tokens j ≡ some m)) ⊎ ((i ≢ k) × (tokens k ≡ some m)))
put_moved tokens i j k m h = ground arith

put_moved_self :
    (tokens : ℕ → Subscription) (i j : ℕ) (t : Subscription)
    → i ≢ j
    → put (put tokens i t) j none i ≡ t
put_moved_self tokens i j t n = ground arith

put_moved_other :
    (tokens : ℕ → Subscription) (i j k : ℕ) (t : Subscription)
    → i ≢ k
    → j ≢ k
    → put (put tokens i t) j none k ≡ tokens k
put_moved_other tokens i j k t n n' = ground arith

module _ {H : Type 0} where
  -- What a program does with its tokens, when it neither detaches one nor clears the event. A
  -- variable is constructed when it holds no token.
  pub data Step : Subscriptions H → Subscriptions H → Type 0 where
    new_token :
        (i : ℕ) (handler : H) (s : Subscriptions H)
        → s.tokens i ≡ none
        → s.event.next_id + 1 < 2 ^ 64
        → Step s (subscribe_token i handler s)
    construct :
        (i j : ℕ) (s : Subscriptions H) → s.tokens i ≡ none → i ≢ j → Step s (move_construct i j s)
    assign_token : (i j : ℕ) (s : Subscriptions H) → Step s (move_assign i j s)
    end_one : (i : ℕ) (s : Subscriptions H) → Step s (unsubscribe i s)

  abbrev pub no_subscriptions : Subscriptions H
  no_subscriptions = record { event = record { handlers = []; next_id = 0 }; tokens = λ i. none }

  pub data Reachable : Subscriptions H → Type 0 where
    start : Reachable no_subscriptions
    next : (s s' : Subscriptions H) → Reachable s → Step s s' → Reachable s'

  record Owned (s : Subscriptions H) : Type 0 where
    distinct : Distinct s.event.handlers
    below : (id : ℕ) → contains id s.event.handlers ≡ true → id < s.event.next_id
    live : (i id : ℕ) → s.tokens i ≡ some id → contains id s.event.handlers ≡ true
    owner : (id : ℕ) → contains id s.event.handlers ≡ true → (i : ℕ) × (s.tokens i ≡ some id)
    only : (i j id : ℕ) → s.tokens i ≡ some id → s.tokens j ≡ some id → i ≡ j

  unsubscribe_some :
      (i id : ℕ) (s : Subscriptions H)
      → s.tokens i ≡ some id
      → Owned s
      → Owned (record s { event = end_token (some id) s.event; tokens = put s.tokens i none })
  unsubscribe_some i id s e o =
      let other : (k : ℕ) → contains k (erase id s.event.handlers) ≡ true → id ≢ k = λ k there same.
        cc (
          contains-erase_self id s.event.handlers o.distinct,
          ap (λ (j : ℕ). contains j (erase id s.event.handlers)) same,
        ) in
      let before : (k : ℕ)
          → contains k (erase id s.event.handlers) ≡ true
          → contains k s.event.handlers ≡ true =
        λ k there. sym (contains-erase_other k id s.event.handlers (other k there)) ∙ there in
      record {
        distinct = Distinct-erase id s.event.handlers o.distinct;
        below = λ k there. o.below k (before k there);
        live = λ j k h.
            let (apart, t) = put-some s.tokens i j k h in
            contains-erase_other k id s.event.handlers
              (λ same. apart (o.only i j k (e ∙ ap some same) t))
            ∙ o.live j k t;
        owner = λ k there.
            let (j, t) = o.owner k (before k there) in
            (
              j,
              put_other s.tokens i j none (λ same. other k there (cc (e, t, ap s.tokens same))) ∙ t,
            );
        only =
            λ j k m h h'. o.only j k m (put-some s.tokens i j m h).1 (put-some s.tokens i k m h').1;
      }

  unsubscribe_none :
      (i : ℕ) (s : Subscriptions H)
      → s.tokens i ≡ none
      → Owned s
      → Owned (record s { tokens = put s.tokens i none })
  unsubscribe_none i s e o = record {
    distinct = o.distinct;
    below = o.below;
    live = λ j k h. o.live j k (put-some s.tokens i j k h).1;
    owner = λ k there.
        let (j, t) = o.owner k there in
        (j, put_other s.tokens i j none (λ same. cc (e, t, ap s.tokens same)) ∙ t);
    only = λ j k m h h'. o.only j k m (put-some s.tokens i j m h).1 (put-some s.tokens i k m h').1;
  }

  unsubscribe_self : (i : ℕ) (s : Subscriptions H) → (unsubscribe i s).tokens i ≡ none
  unfolding unsubscribe
  unsubscribe_self i s = put_self s.tokens i none

  unsubscribe-Owned : (i : ℕ) (s : Subscriptions H) → Owned s → Owned (unsubscribe i s)
  unfolding unsubscribe
  unsubscribe-Owned i s o = at (s.tokens i) refl
    where
      at :
          (t : Subscription)
          → s.tokens i ≡ t
          → Owned (record s { event = end_token t s.event; tokens = put s.tokens i none })
      at none e = unsubscribe_none i s e o
      at (some id) e = unsubscribe_some i id s e o

  move_construct-Owned :
      (i j : ℕ) (s : Subscriptions H)
      → s.tokens i ≡ none
      → i ≢ j
      → Owned s
      → Owned (move_construct i j s)
  unfolding move_construct
  move_construct-Owned i j s e n o = record {
    distinct = o.distinct;
    below = o.below;
    live = λ k m h. elim (put_moved s.tokens i j k m h).1 [
      | inl p ↦ o.live j m p.1
      | inr p ↦ o.live k m p.1
    ];
    owner = λ m there.
        let (k, t) = o.owner m there in
        elim (ℕ_discrete j k) [
          | yes same ↦ (i, put_moved_self s.tokens i j (s.tokens j) n ∙ ap s.tokens same ∙ t)
          | no other ↦ (
            k,
            put_moved_other s.tokens i j k (s.tokens j) (λ same. cc (e, t, ap s.tokens same)) other
                ∙ t,
          )
        ];
    only = λ k k' m h h'. elim (put_moved s.tokens i j k m h).1 [
      | inl p ↦ elim (put_moved s.tokens i j k' m h').1 [
        | inl p' ↦ sym p.0 ∙ p'.0
        | inr p' ↦ absurd ((put_moved s.tokens i j k' m h').0 (o.only j k' m p.1 p'.1))
      ]
      | inr p ↦ elim (put_moved s.tokens i j k' m h').1 [
        | inl p' ↦ absurd ((put_moved s.tokens i j k m h).0 (o.only j k m p'.1 p.1))
        | inr p' ↦ o.only k k' m p.1 p'.1
      ]
    ];
  }

  subscribe_token-Owned :
      (i : ℕ) (x : H) (s : Subscriptions H)
      → s.tokens i ≡ none
      → s.event.next_id + 1 < 2 ^ 64
      → Owned s
      → Owned (subscribe_token i x s)
  unfolding subscribe_token subscribe
  subscribe_token-Owned i x s e room o = record {
    distinct = Distinct-assign s.event.next_id x s.event.handlers o.distinct;
    below =
        λ k there. ground (arith, o.below k, contains-assign k s.event.next_id x s.event.handlers);
    live =
        λ j k h. ground (arith, o.live j k, contains-assign k s.event.next_id x s.event.handlers);
    owner = λ k there. elim (ℕ_discrete s.event.next_id k) [
      | yes new ↦ (i, put_self s.tokens i (some s.event.next_id) ∙ ap some new)
      | no old ↦
          let (j, t) =
            o.owner k (ground (arith, contains-assign k s.event.next_id x s.event.handlers)) in
          (
            j,
            put_other s.tokens i j (some s.event.next_id) (λ same. cc (e, t, ap s.tokens same)) ∙ t,
          )
    ];
    only = λ j k m h h'. ground (arith, o.only j k m, o.live j m, o.live k m, o.below m);
  }

  move_assign-Owned : (i j : ℕ) (s : Subscriptions H) → Owned s → Owned (move_assign i j s)
  unfolding move_assign
  move_assign-Owned i j s o = elim (Bool-cases (i == j)) [
    | inl e ↦ rw e o
    | inr e ↦ rw e (
        move_construct-Owned i j (unsubscribe i s) (unsubscribe_self i s) (ground (arith, e))
          (unsubscribe-Owned i s o))
  ]

  Step-Owned : {s s' : Subscriptions H} → Step s s' → Owned s → Owned s'
  Step-Owned (new_token i x s e room) o = subscribe_token-Owned i x s e room o
  Step-Owned (construct i j s e n) o = move_construct-Owned i j s e n o
  Step-Owned (assign_token i j s) o = move_assign-Owned i j s o
  Step-Owned (end_one i s) o = unsubscribe-Owned i s o

  Reachable-Owned : (s : Subscriptions H) → Reachable s → Owned s
  Reachable-Owned _ start = record {
    distinct = tt;
    below = λ id h. cc;
    live = λ i id h. cc;
    owner = λ id h. cc;
    only = λ i j id h h'. cc;
  }
  Reachable-Owned s' (next s _ r st) = Step-Owned st (Reachable-Owned s r)

  -- However tokens are created, moved, assigned and destroyed, a handler is registered exactly as long
  -- as one variable holds a token for it, and no two variables hold tokens for the same one, as long
  -- as no token is detached, the event is not cleared, and identifiers are not used up.
  pub token_owns :
      (s : Subscriptions H)
      → Reachable s
      → (id : ℕ)
      → ((contains id s.event.handlers ≡ true) ↔ ((i : ℕ) × (s.tokens i ≡ some id)))
        × ((i j : ℕ) → s.tokens i ≡ some id → s.tokens j ≡ some id → i ≡ j)
  token_owns s r id =
      let o = Reachable-Owned s r in
      ((o.owner id, λ held. o.live held.0 id held.1), λ i j. o.only i j id)
