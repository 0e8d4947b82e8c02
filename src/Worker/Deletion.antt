-- ===== src/Worker/Deletion.antt =====
-- What becomes of the structures of the operations.
use jun_core_v.Common.{
  ℕ, ◌+◌, ◌≡◌, refl, List, [], ◌∷◌, ◌++◌, ◌==◌, Option, none, some, ap, subst, sym, ◌∙◌, arith,
}
use jun_core_v.Common.Weights.{bit, total, total-append, total_at}
use jun_core_v.Worker.{
  Message, Overlapped, Action, end_worker, fault, receive_complete, send_complete, accept_complete,
  connect_complete, no_bytes, invalid_operation, Port, action, dispatch, act, take_message, Turn,
  take, finish, Run, start, turn, complete, completions, shutdown_message,
}
use jun_core_v.Worker.Shutdown.{take_message-takes}

-- How often an identifier stands in a list.
abbrev pub copies : ℕ → List ℕ → ℕ
copies id ids = total (λ (x : ℕ). bit (x == id)) ids

-- Whether a worker that is at this has the structure.
abbrev pub holds : ℕ → Action → ℕ
holds id end_worker = 0
holds id fault = 0
holds id (receive_complete o io_size) = bit (o.id == id)
holds id (send_complete o io_size) = bit (o.id == id)
holds id (accept_complete o io_size) = bit (o.id == id)
holds id (connect_complete o io_size) = bit (o.id == id)
holds id (no_bytes o) = bit (o.id == id)
holds id (invalid_operation o) = bit (o.id == id)

-- Everything that was posted is deleted, with a worker, or in the queue.
abbrev Kept : ℕ → Port → Type 0
Kept id p =
    copies id p.deleted + total (holds id) p.rounds + copies id (completions p.queue)
    ≡ copies id p.posted

module _ (id : ℕ) where
  copies-completions :
      (before after : List Message)
      → copies id (completions (before ++ after))
        ≡ copies id (completions before) + copies id (completions after)
  unfolding total
  copies-completions [] after = omega arith
  copies-completions (m ∷ ms) after = ground (arith, copies-completions ms after)

  -- The structure of a message is with the worker that has taken it.
  action-holds :
      (io_size : ℕ) (overlapped : Option Overlapped) (rest : List Message)
      → copies id (completions (record { io_size = io_size; overlapped = overlapped } ∷ rest))
        ≡ holds id (action io_size overlapped) + copies id (completions rest)
  unfolding action dispatch total
  action-holds io_size none rest = ground arith
  action-holds io_size (some o) rest = ground arith

  -- The end of a round deletes what the worker has.
  act-Kept :
      (a : Action) (p : Port)
      → copies id p.deleted
          + holds id a
          + total (holds id) p.rounds
          + copies id (completions p.queue)
        ≡ copies id p.posted
      → Kept id (act a p)
  unfolding act total
  act-Kept end_worker p h = ground (arith, h, copies-completions p.queue (shutdown_message ∷ []))
  act-Kept fault p h = ground (arith, h)
  act-Kept (receive_complete o io_size) p h =
      ground (arith, h, total-append (λ (x : ℕ). bit (x == id)) p.deleted (o.id ∷ []))
  act-Kept (send_complete o io_size) p h =
      ground (arith, h, total-append (λ (x : ℕ). bit (x == id)) p.deleted (o.id ∷ []))
  act-Kept (accept_complete o io_size) p h =
      ground (arith, h, total-append (λ (x : ℕ). bit (x == id)) p.deleted (o.id ∷ []))
  act-Kept (connect_complete o io_size) p h =
      ground (arith, h, total-append (λ (x : ℕ). bit (x == id)) p.deleted (o.id ∷ []))
  act-Kept (no_bytes o) p h =
      ground (arith, h, total-append (λ (x : ℕ). bit (x == id)) p.deleted (o.id ∷ []))
  act-Kept (invalid_operation o) p h =
      ground (arith, h, total-append (λ (x : ℕ). bit (x == id)) p.deleted (o.id ∷ []))

  take-Kept :
      (queue : List Message) (p p' : Port)
      → p.queue ≡ queue
      → take_message p ≡ some p'
      → Kept id p
      → Kept id p'
  unfolding take_message total
  take-Kept [] p p' e h k = absurd (ground (arith, e, h))
  take-Kept (m ∷ rest) p p' e h k =
      let there : copies id (completions p.queue)
          ≡ holds id (action m.io_size m.overlapped) + copies id (completions rest) =
        ap (λ ms. copies id (completions ms)) e ∙ action-holds m.io_size m.overlapped rest in
      subst (Kept id) (sym (take_message-takes p m rest p' e h).1) (omega (arith, there, k))

  Turn-Kept : (p p' : Port) → Turn p p' → Kept id p → Kept id p'
  Turn-Kept _ _ (take p p' h) k = take-Kept p.queue p p' refl h k
  Turn-Kept _ _ (finish p before a after e) k =
      act-Kept a (record p { rounds = before ++ after })
        (omega (
          arith,
          k,
          ap (total (holds id)) e,
          total_at (holds id) before a after,
          total-append (holds id) before after,
        ))

  Run-Kept : (p : Port) → Kept id p → (k : ℕ) (q : Port) → Run p k q → Kept id q
  unfolding total
  Run-Kept p h _ _ (start q e) = subst (Kept id) (sym e) h
  Run-Kept p h _ _ (turn k q q' r t) = Turn-Kept q q' t (Run-Kept p h k q r)
  Run-Kept p h _ _ (complete k q io_size o r) =
      let m : Message = record { io_size = io_size; overlapped = some o } in
      omega (
        arith,
        Run-Kept p h k q r,
        copies-completions q.queue (m ∷ []),
        total-append (λ (x : ℕ). bit (x == id)) q.posted (o.id ∷ []),
      )

  -- From a queue on, before anything was deleted or taken, whatever the workers do in whatever order,
  -- every structure is deleted, with a worker in its round, or in the queue, each as often as it was
  -- posted: one that was posted once is never deleted twice, and none is lost.
  pub deleted_once :
      (p : Port) (k : ℕ) (q : Port)
      → p.deleted ≡ []
      → p.rounds ≡ []
      → p.posted ≡ completions p.queue
      → Run p k q
      → copies id q.deleted + total (holds id) q.rounds + copies id (completions q.queue)
        ≡ copies id q.posted
  unfolding total
  deleted_once p k q none_deleted none_taken all_queued r =
      Run-Kept p (rw (none_deleted, none_taken, all_queued) (omega arith)) k q r
