-- ===== src/Worker/Shutdown.antt =====
-- After `Shutdown` every worker ends.
use jun_core_v.Common.{
  ℕ, zero, suc, ◌+◌, ◌*◌, ◌≡◌, ◌≤◌, ◌<◌, ◌⊎◌, refl, List, [], ◌∷◌, ◌++◌, Option, none, some, length,
  length-append, replicate, length-replicate, subst, sym, ap, dec_lt, inl, inr, true, false,
  append-nil, ◌-◌, ◌∙◌, arith,
}
use jun_core_v.Common.Weights.{total, total-append, total_at}
use jun_core_v.Worker.{
  Message, Overlapped, Action, end_worker, fault, receive_complete, send_complete, accept_complete,
  connect_complete, no_bytes, invalid_operation, Port, shutdown_message, action, dispatch, act,
  take_message, Turn, take, finish, Run, start, turn, complete, post, shutdown,
}

-- A message without a structure has no bytes.
abbrev pub IsMessage : Message → Type 0
IsMessage m = m.overlapped ≡ none → m.io_size ≡ 0

abbrev pub AreMessages : List Message → Type 0
AreMessages [] = Unit {0}
AreMessages (m ∷ ms) = IsMessage m × AreMessages ms

AreMessages-append :
    (before after : List Message)
    → AreMessages before
    → AreMessages after
    → AreMessages (before ++ after)
AreMessages-append [] after h h' = h'
AreMessages-append (m ∷ ms) after h h' = (h.0, AreMessages-append ms after h.1 h')

AreMessages-replicate : (n : ℕ) → AreMessages (replicate n shutdown_message)
AreMessages-replicate zero = tt
AreMessages-replicate (suc n) = (λ e. refl, AreMessages-replicate n)

abbrev pub ending : Option Overlapped → ℕ
ending none = 1
ending (some o) = 0

-- Rounds that end a worker.
abbrev pub ender : Action → ℕ
ender end_worker = 1
ender _ = 0

action-ender :
    (io_size : ℕ) (overlapped : Option Overlapped)
    → (overlapped ≡ none → io_size ≡ 0)
    → ender (action io_size overlapped) ≡ ending overlapped
unfolding action dispatch
action-ender io_size none h = ground (arith, h refl)
action-ender io_size (some o) h = ground arith

total-ender-le : (rounds : List Action) → total ender rounds ≤ length rounds
unfolding total
total-ender-le [] = omega arith
total-ender-le (a ∷ rounds) = ground (arith, total-ender-le rounds)

-- How many of the first `n` messages end a worker.
pub ends_within : ℕ → List Message → ℕ
ends_within zero ms = 0
ends_within (suc n) [] = 0
ends_within (suc n) (m ∷ ms) = ending m.overlapped + ends_within n ms

-- What is appended stands behind.
ends_within-append :
    (n : ℕ) (before after : List Message)
    → n ≤ length before
    → ends_within n (before ++ after) ≡ ends_within n before
unfolding ends_within
ends_within-append zero before after h = refl
ends_within-append (suc n) [] after h = absurd (omega arith)
ends_within-append (suc n) (m ∷ ms) after h = omega (arith, ends_within-append n ms after)

ends_within-replicate :
    (before : List Message) (n : ℕ)
    → n ≤ ends_within (length before + n) (before ++ replicate n shutdown_message)
unfolding ends_within
ends_within-replicate [] zero = omega arith
ends_within-replicate [] (suc n) = ground (arith, ends_within-replicate [] n)
ends_within-replicate (m ∷ ms) n =
    let count : suc (length ms + n) ≡ suc (length ms) + n = omega arith in
    subst (λ k. n ≤ ends_within k (m ∷ ms ++ replicate n shutdown_message)) count
      (omega (arith, ends_within-replicate ms n))

-- The rounds under way and `n` messages at the front of the queue end all workers, and `turns` are
-- enough for them.
pub record Ending (n turns : ℕ) (p : Port) : Type 0 where
  pub messages : AreMessages p.queue
  pub enough : p.workers ≤ ends_within n p.queue + total ender p.rounds
  pub there : n ≤ length p.queue
  pub needed : 2 * n + length p.rounds ≤ turns

-- After a turn there is one less to make.
abbrev Less : ℕ → Port → Type 0
Less turns p = (left n : ℕ) × (suc left ≤ turns) × Ending n left p

pub take_message-takes :
    (p : Port) (m : Message) (rest : List Message) (p' : Port)
    → p.queue ≡ m ∷ rest
    → take_message p ≡ some p'
    → (length p.rounds < p.workers)
      × (p' ≡ record p { queue = rest; rounds = action m.io_size m.overlapped ∷ p.rounds })
unfolding take_message
take_message-takes p m rest p' e h = ground (arith, h)

take-Ending :
    (n turns : ℕ) (queue : List Message) (p p' : Port)
    → p.queue ≡ queue
    → Ending n turns p
    → take_message p ≡ some p'
    → Less turns p'
unfolding take_message ends_within total
take-Ending n turns [] p p' e i h = absurd (ground (arith, e, h))
take-Ending zero turns (m ∷ rest) p p' e i h =
    absurd
      (omega (arith, (take_message-takes p m rest p' e h).0, total-ender-le p.rounds, i.enough))
take-Ending (suc n) turns (m ∷ rest) p p' e i h =
    let messages : IsMessage m × AreMessages rest = subst AreMessages e i.messages in
    let ends : p.workers ≤ (ending m.overlapped + ends_within n rest) + total ender p.rounds =
      subst (λ q. p.workers ≤ ends_within (suc n) q + total ender p.rounds) e i.enough in
    let there : suc n ≤ suc (length rest) = subst (λ q. suc n ≤ length q) e i.there in
    let kind = action-ender m.io_size m.overlapped messages.0 in
    subst (Less turns) (sym (take_message-takes p m rest p' e h).1) (
      turns - 1,
      n,
      omega (arith, i.needed),
      record {
        messages = messages.1;
        enough = omega (arith, ends, kind);
        there = omega (arith, there);
        needed = omega (arith, i.needed);
      },
    )

-- What the end of a round does to the queue and the workers.
act-workers :
    (a : Action) (p : Port)
    → ((act a p).workers ≡ p.workers - ender a)
      × ((act a p).rounds ≡ p.rounds)
      × (((act a p).queue ≡ p.queue) ⊎ ((act a p).queue ≡ p.queue ++ shutdown_message ∷ []))
unfolding act
act-workers end_worker p = (refl, refl, inr refl)
act-workers fault p = (omega arith, refl, inl refl)
act-workers (receive_complete o io_size) p = ground arith
act-workers (send_complete o io_size) p = ground arith
act-workers (accept_complete o io_size) p = ground arith
act-workers (connect_complete o io_size) p = ground arith
act-workers (no_bytes o) p = ground arith
act-workers (invalid_operation o) p = ground arith

-- What stands behind changes nothing.
queue-Ending :
    (n turns : ℕ) (more : List Message) (p q : Port)
    → Ending n turns p
    → AreMessages more
    → q.queue ≡ p.queue ++ more
    → q.workers ≡ p.workers
    → q.rounds ≡ p.rounds
    → Ending n turns q
queue-Ending n turns more p q i h e e' e'' = record {
  messages = subst AreMessages (sym e) (AreMessages-append p.queue more i.messages h);
  enough = rw (e, e', e'') (omega (arith, ends_within-append n p.queue more i.there, i.enough));
  there = rw e (omega (arith, length-append {0} p.queue more, i.there));
  needed = rw e'' i.needed;
}

finish-Ending :
    (n turns : ℕ) (p : Port) (before : List Action) (a : Action) (after : List Action)
    → p.rounds ≡ before ++ a ∷ after
    → Ending n turns p
    → Less turns (act a (record p { rounds = before ++ after }))
finish-Ending n turns p before a after e i =
    let q : Port = record p { rounds = before ++ after } in
    let r : Port = record p { rounds = before ++ after; workers = p.workers - ender a } in
    let size : length p.rounds ≡ length before + suc (length after) =
      ap length e ∙ length-append before (a ∷ after) in
    let enders : total ender p.rounds ≡ (total ender before + total ender after) + ender a =
      ap (total ender) e ∙ total_at ender before a after in
    let small : 2 * n + length (before ++ after) ≤ turns - 1 =
      omega (arith, size, length-append {0} before after, i.needed) in
    let i' : Ending n (turns - 1) r = record {
      messages = i.messages;
      enough = omega (arith, enders, total-append ender before after, i.enough);
      there = i.there;
      needed = small;
    } in
    let (workers, rounds, queue) = act-workers a q in
    (
      turns - 1,
      n,
      omega (arith, size, i.needed),
      elim queue [
        | inl same ↦
            queue-Ending n (turns - 1) [] r (act a q) i' tt (same ∙ sym (append-nil p.queue))
              workers rounds
        | inr more ↦
            queue-Ending n (turns - 1) (shutdown_message ∷ []) r (act a q) i' (λ h. refl, tt) more
              workers rounds
      ],
    )

Turn-Ending : (n turns : ℕ) (p p' : Port) → Turn p p' → Ending n turns p → Less turns p'
Turn-Ending n turns _ _ (take p p' h) i = take-Ending n turns p.queue p p' refl i h
Turn-Ending n turns _ _ (finish p before a after e) i = finish-Ending n turns p before a after e i

-- As long as a worker is left, one of them can make a turn.
can_turn :
    (n turns : ℕ) (rounds : List Action) (queue : List Message) (p : Port)
    → p.rounds ≡ rounds
    → p.queue ≡ queue
    → Ending n turns p
    → (p.workers ≡ 0) ⊎ ((p' : Port) × Turn p p')
unfolding take_message ends_within total
can_turn n turns (a ∷ rounds) queue p e e' i = inr (_, finish p [] a rounds e)
can_turn n turns [] (m ∷ rest) p e e' i = elim (dec_lt 0 p.workers) [
  | no none_left ↦ inl (omega arith)
  | yes some_left ↦
      let p' : Port = record p {
        queue = rest;
        rounds = action m.io_size m.overlapped ∷ p.rounds;
      } in
      inr (p', take p p' (ground (arith, e, e')))
]
can_turn n turns [] [] p e e' i =
    let none_there : n ≡ 0 = ground (arith, i.there, e') in
    inl (ground (arith, i.enough, e, e', none_there))

Run-Ending :
    (turns : ℕ) (p : Port) (n : ℕ)
    → Ending n turns p
    → (k : ℕ) (q : Port) → Run p k q
    → (left m : ℕ) × (k + left ≤ turns) × Ending m left q
Run-Ending turns p n i _ _ (start q e) = (turns, n, omega arith, subst (Ending n turns) (sym e) i)
Run-Ending turns p n i _ _ (turn k q q' r t) =
    let (left, m, bound, j) = Run-Ending turns p n i k q r in
    let (left', m', less, j') = Turn-Ending m left q q' t j in
    (left', m', omega (arith, bound, less), j')
Run-Ending turns p n i _ _ (complete k q io_size o r) =
    let (left, m, bound, j) = Run-Ending turns p n i k q r in
    (
      left,
      m,
      bound,
      queue-Ending m left (record { io_size = io_size; overlapped = some o } ∷ []) q
          (post io_size o q) j (λ h. cc, tt) refl refl refl,
    )

-- After `Shutdown` every worker leaves its loop, in whatever order the workers move and whatever
-- operations complete meanwhile: they make at most two turns for each message that stood in the queue
-- and for each worker, and one for each round that was under way, and as long as a worker is left,
-- one of them can make a turn. So the joins of `Shutdown` return. The condition is that the flag was
-- not yet set, and that every message without a structure in the queue has no bytes.
pub shutdown-ends :
    (p : Port) (k : ℕ) (q : Port)
    → p.shutdown_flag ≡ false
    → AreMessages p.queue
    → Run (shutdown p) k q
    → (k ≤ 2 * (length p.queue + p.workers) + length p.rounds)
      × ((q.workers ≡ 0) ⊎ ((q' : Port) × Turn q q'))
unfolding shutdown
shutdown-ends p k q fresh h r =
    let stop = replicate p.workers shutdown_message in
    let n = length p.queue + p.workers in
    let s : Port = record p { shutdown_flag = true; queue = p.queue ++ stop } in
    let i : Ending n (2 * n + length p.rounds) s = record {
      messages = AreMessages-append p.queue stop h (AreMessages-replicate p.workers);
      enough = omega (arith, ends_within-replicate p.queue p.workers);
      there =
          omega (
            arith,
            length-append {0} p.queue stop,
            length-replicate {0} p.workers shutdown_message,
          );
      needed = omega arith;
    } in
    let stopped : shutdown p ≡ s = rw (fresh, shutdown) refl in
    let (left, m, bound, j) =
      Run-Ending (2 * n + length p.rounds) s n i k q (subst (λ t. Run t k q) stopped r) in
    (omega (arith, bound), can_turn m left q.rounds q.queue q refl refl j)
