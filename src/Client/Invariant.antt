-- ===== src/Client/Invariant.antt =====
-- What holds of a client after every step: its connections are counted, and whoever has to make one
-- again is awake or will be woken.
use jun_core_v.Common.{
  ℕ, suc, ◌+◌, ◌≤◌, ◌≡◌, ◌⊎◌, ap, refl, subst, List, ◌∷◌, ◌++◌, Bool, true, false, some, length,
  length-append, Option-cases, inl, inr, arith,
}
use mathlib.Core.Option.{some-injective}
use jun_core_v.Session.{Session}
use jun_core_v.Connect.{ConnectAnswers, CompleteAnswers, post_connect_ex, handle_connect_complete}
use jun_core_v.Client.{
  Client, Thread, Stop, not_started, acquiring, woken, loading, ended, posting, not_stopping,
  releasing, joining, attempt, thread_step, on_user_disconnected, release_signal, stop_client,
  stop_release, stop_join, start_client, new_client, completed, Step, first_post, thread_acts,
  completes, disconnects, releases, stops, stop_releases, stop_joins, Reachable, start, next,
}

-- The pending connections that the thread has loaded, and those of them it has yet to post.
abbrev pub loaded : Thread → ℕ
loaded (posting n left) = n
loaded _ = 0

abbrev pub left : Thread → ℕ
left (posting n rest) = rest
left _ = 0

-- Whether the thread will come to the semaphore before it loads the pending connections.
abbrev pub is_away : Thread → Bool
is_away woken = false
is_away loading = false
is_away ended = false
is_away not_started = false
is_away _ = true

abbrev pub is_waiting : Thread → Bool
is_waiting acquiring = true
is_waiting _ = false

abbrev pub is_stopping : Stop → Bool
is_stopping not_stopping = false
is_stopping _ = true

abbrev pub is_joining : Stop → Bool
is_joining joining = true
is_joining _ = false

abbrev pub is_started : Thread → Bool
is_started not_started = false
is_started _ = true

pub record Invariant (c : Client) : Type 0 where
  pub counted :
      length c.connecting
        + length c.made
        + c.failed_posts
        + c.dropped
        + c.starting
        + c.pending
        + left c.thread
      ≡ c.target + loaded c.thread
  pub within : (left c.thread ≤ loaded c.thread) × (loaded c.thread ≤ c.pending)
  pub signalled :
      c.signal ≡ false → is_away c.thread ≡ true → c.pending ≤ c.triggering + loaded c.thread
  pub stopped : is_stopping c.stop ≡ true → c.running ≡ false
  pub started : (c.running ≡ true) ⊎ (is_stopping c.stop ≡ true) → is_started c.thread ≡ true
  pub woken_up : is_joining c.stop ≡ true → is_waiting c.thread ≡ true → c.signal ≡ true

-- A post makes a connection that is under way, or a failed one.
pub attempt_lem :
    (a : ConnectAnswers) (c : Client)
    → ((s : Session) × (attempt a c ≡ record c { connecting = s ∷ c.connecting }))
      ⊎ (attempt a c ≡ record c { failed_posts = suc c.failed_posts })
unfolding attempt
attempt_lem a c = elim (Option-cases (post_connect_ex c.fn_connect_ex c.id a).0) [
  | inl e ↦ inr (rw (e, attempt))
  | inr (s, e) ↦ inl (s, rw (e, attempt))
]

-- What the steps but those of the reconnect thread do to a client.
module _ {c : Client} (i : Invariant c) where
  first_post-Invariant :
      (a : ConnectAnswers) (n : ℕ)
      → c.starting ≡ suc n
      → Invariant (attempt a (record c { starting = n }))
  first_post-Invariant a n e = elim (attempt_lem a (record c { starting = n })) [
    | inl (s, e') ↦ rw e' (ground (arith, i.signalled, i.stopped, i.started, i.woken_up))
    | inr e' ↦ rw e' (ground (arith, i.signalled, i.stopped, i.started, i.woken_up))
  ]

  retries-Invariant :
      (a : ConnectAnswers) (n rest : ℕ)
      → c.thread ≡ posting n (suc rest)
      → Invariant (attempt a (record c { thread = posting n rest }))
  retries-Invariant a n rest e = elim (attempt_lem a (record c { thread = posting n rest })) [
    | inl (s, e') ↦ rw e' (ground (arith, i.signalled, i.stopped, i.started, i.woken_up))
    | inr e' ↦ rw e' (ground (arith, i.signalled, i.stopped, i.started, i.woken_up))
  ]

  releases-Invariant : (n : ℕ) → c.triggering ≡ suc n → Invariant (release_signal c)
  unfolding release_signal
  releases-Invariant n e = ground (arith, i.signalled, i.stopped, i.started, i.woken_up)

  stops-Invariant : Invariant (stop_client c)
  unfolding stop_client
  stops-Invariant = ground (arith, i.signalled, i.stopped, i.started, i.woken_up)

  stop_releases-Invariant : c.stop ≡ releasing → Invariant (stop_release c)
  unfolding stop_release
  stop_releases-Invariant e = ground (arith, i.signalled, i.stopped, i.started, i.woken_up)

  stop_joins-Invariant : c.stop ≡ joining → c.thread ≡ ended → Invariant (stop_join c)
  unfolding stop_join
  stop_joins-Invariant e e' = ground (arith, i.signalled, i.stopped, i.started, i.woken_up)

  disconnects-Invariant :
      (before : List Session) (session : Session) (after : List Session)
      → c.made ≡ before ++ session ∷ after
      → Invariant (on_user_disconnected (record c { made = before ++ after }))
  unfolding on_user_disconnected
  disconnects-Invariant before session after e = ground (
    arith,
    i.signalled,
    i.stopped,
    i.started,
    i.woken_up,
    ap length e,
    length-append before (session ∷ after),
    length-append before after,
  )

  completes-Invariant :
      (before : List Session) (session : Session) (after : List Session) (iocp : ℕ)
      (a : CompleteAnswers)
      → c.connecting ≡ before ++ session ∷ after
      → Invariant (
          completed
            (handle_connect_complete (some c.id) iocp a session)
            (record c { connecting = before ++ after }))
  unfolding handle_connect_complete
  completes-Invariant before session after iocp a e = ground (
    arith,
    i.signalled,
    i.stopped,
    i.started,
    i.woken_up,
    ap length e,
    length-append before (session ∷ after),
    length-append before after,
  )

-- The steps of the reconnect thread.
pub thread_step-Invariant :
    (t : Thread) (a : ConnectAnswers) (c c' : Client)
    → c.thread ≡ t
    → thread_step t a c ≡ some c'
    → Invariant c
    → Invariant c'
unfolding thread_step
thread_step-Invariant (posting n (suc rest)) a c c' e e' i =
    subst Invariant (some-injective _ _ e') (retries-Invariant i a n rest e)
thread_step-Invariant t a c c' e e' i =
    ground (arith, i.signalled, i.stopped, i.started, i.woken_up)

pub Step-Invariant : {c c' : Client} → Step c c' → Invariant c → Invariant c'
Step-Invariant (first_post c n a e) i = first_post-Invariant i a n e
Step-Invariant (thread_acts c c' a e) i = thread_step-Invariant c.thread a c c' refl e i
Step-Invariant (completes c before session after iocp a e) i =
    completes-Invariant i before session after iocp a e
Step-Invariant (disconnects c before session after e) i =
    disconnects-Invariant i before session after e
Step-Invariant (releases c n e) i = releases-Invariant i n e
Step-Invariant (stops c) i = stops-Invariant i
Step-Invariant (stop_releases c e) i = stop_releases-Invariant i e
Step-Invariant (stop_joins c e e') i = stop_joins-Invariant i e e'

start-Invariant :
    (id target : ℕ) (initialized loaded : Bool) (c : Client)
    → start_client initialized loaded (new_client id target) ≡ some c
    → c.running ≡ true
    → Invariant c
unfolding start_client new_client
start-Invariant id target initialized loaded c e r = ground arith

pub Reachable-Invariant : {c : Client} → Reachable c → Invariant c
Reachable-Invariant (start id target initialized loaded c e r) =
    start-Invariant id target initialized loaded c e r
Reachable-Invariant (next c c' r st) = Step-Invariant st (Reachable-Invariant r)
