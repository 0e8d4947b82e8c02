-- ===== src/Server/Accepting.antt =====
-- What the completion of an accept does with the handles, and the next accept.
use jun_core_v.Common.{
  ℕ, ◌≡◌, List, ◌∷◌, ◌++◌, Bool, true, false, Option, none, some, arith, if◌then◌else◌,
  Option-cases, ◌∙◌, ◌&&◌, ◌⊎◌,
}
use jun_core_v.Session.{Session, Call, destroy, new_session, set, recv_async}
use jun_core_v.Sockets.{replay, remove, replay-append, remove-head}
use jun_core_v.Accept.{
  AcceptAnswers, AcceptedAnswers, Welcome, Handled, post_accept_ex, complete_accept, accepted,
  let_go,
}
use jun_core_v.Server.{Server, handle_accept_complete}

-- The application makes no sockets, closes none, and leaves the session its own.
pub record IsPolite (welcome : Session → Welcome) : Type 0 where
  pub same_handles : (s : Session) (socks : List ℕ) → replay (welcome s).calls socks ≡ some socks
  pub same_sock : (s : Session) → (welcome s).session.sock ≡ s.sock

recv_async-handles :
    (posted : Bool) (s : Session) (socks : List ℕ)
    → replay (recv_async posted s).1 socks ≡ some socks
unfolding recv_async replay
recv_async-handles posted s socks = ground arith

accepted_same_handles :
    (welcome : Session → Welcome) (server iocp : ℕ) (peer : ℕ × ℕ) (a : AcceptedAnswers)
    (session : Session) (socks : List ℕ)
    → IsPolite welcome
    → replay (accepted welcome server iocp peer a session).calls socks ≡ some socks
unfolding accepted replay
accepted_same_handles welcome server iocp peer a session socks polite =
    let s = set session.sock peer.0 peer.1 (some server) (some iocp) (some a.user) a.now session in
    replay-append (welcome s).calls (recv_async a.posted (welcome s).session).1 socks
    ∙ rw (polite.same_handles s socks) (recv_async-handles a.posted (welcome s).session socks)

-- A session lets go of its handle once, unless an operation holds it.
let_go-handles :
    (now : ℕ) (h : Handled) (sock : ℕ) (socks : List ℕ)
    → h.session.sock ≡ some sock
    → replay (let_go now h) socks ≡ (if h.is_held then some socks else remove sock socks)
unfolding let_go destroy replay
let_go-handles now h sock socks e = ground (arith, Option-cases (remove sock socks))

-- What `PostAcceptEx` does when nothing fails.
abbrev pub all_succeed : AcceptAnswers → Bool
all_succeed next = next.registered && next.accepting

post_accept_ex-succeeds :
    (listener : Option ℕ) (engine sock : ℕ) (a : AcceptAnswers)
    → a.wsa_socket ≡ some sock
    → all_succeed a ≡ true
    → ((post_accept_ex true listener engine a).0 ≡ some (new_session a.allocation sock engine))
      × ((socks : List ℕ)
          → replay (post_accept_ex true listener engine a).1 socks ≡ some (sock ∷ socks))
unfolding post_accept_ex replay
post_accept_ex-succeeds listener engine sock a e e' = (ground arith, λ socks. ground arith)

remove-second :
    (first second : ℕ) (socks : List ℕ)
    → remove first (second ∷ socks) ≡ none
    → remove second (first ∷ second ∷ socks) ≡ some (first ∷ socks)
unfolding remove
remove-second first second socks e =
    rw (remove-head second socks) (ground (arith, remove-head second socks))

accepted_same_sock :
    (welcome : Session → Welcome) (server iocp : ℕ) (peer : ℕ × ℕ) (a : AcceptedAnswers)
    (session : Session)
    → IsPolite welcome
    → (accepted welcome server iocp peer a session).session.sock ≡ session.sock
unfolding accepted set
accepted_same_sock welcome server iocp peer a session polite = polite.same_sock _

-- The calls of `HandleAcceptComplete` in their order.
in_order :
    (h : Handled) (posted : List Call) (now sock next_sock : ℕ) (socks : List ℕ)
    → replay h.calls (sock ∷ socks) ≡ some (sock ∷ socks)
    → replay posted (sock ∷ socks) ≡ some (next_sock ∷ sock ∷ socks)
    → h.session.sock ≡ some sock
    → remove next_sock (sock ∷ socks) ≡ none
    → replay (h.calls ++ posted ++ let_go now h) (sock ∷ socks)
      ≡ some (if h.is_held then next_sock ∷ sock ∷ socks else next_sock ∷ socks)
in_order h posted now sock next_sock socks e₁ e₂ e₃ fresh = ground (
  arith,
  replay-append (h.calls ++ posted) (let_go now h) (sock ∷ socks),
  replay-append h.calls posted (sock ∷ socks),
  remove-second next_sock sock socks fresh,
  let_go-handles now h sock (next_sock ∷ sock ∷ socks) e₃,
)

-- A completion that is accepted, followed by a `PostAcceptEx` without a failure, with an application
-- that makes and closes no sockets: the next accept is posted with a new handle, and the handle of the
-- session stays open if an operation holds the session and is closed, once, if none does.
pub handle_accept_complete-handles :
    (welcome : Session → Welcome) (iocp sock next_sock : ℕ) (peer : ℕ × ℕ) (a : AcceptedAnswers)
    (next : AcceptAnswers) (s : Server) (session : Session) (socks : List ℕ)
    → IsPolite welcome
    → session.sock ≡ some sock
    → a.updated ≡ true
    → a.peer ≡ some peer
    → s.fn_accept_ex ≡ true
    → next.wsa_socket ≡ some next_sock
    → all_succeed next ≡ true
    → remove next_sock (sock ∷ socks) ≡ none
    → let after = handle_accept_complete welcome iocp a next s session in
      (after.accepting ≡ some (new_session next.allocation next_sock s.id))
      × (replay after.calls (sock ∷ socks)
          ≡ some (elim after.session [
            | none ↦ next_sock ∷ socks
            | some kept ↦ next_sock ∷ sock ∷ socks
          ]))
unfolding handle_accept_complete complete_accept
handle_accept_complete-handles welcome iocp sock next_sock peer a next s session socks polite e₁ e₂
      e₃ e₄ e₅ e₆ fresh =
    let h = accepted welcome s.id iocp peer a session in
    let post = post_accept_ex-succeeds s.listener s.id next_sock next e₅ e₆ in
    rw (e₂, e₃, e₄)
      (
        post.0,
        ground (
          arith,
          in_order h (post_accept_ex true s.listener s.id next).1 a.now sock next_sock socks
              (accepted_same_handles welcome s.id iocp peer a session (sock ∷ socks) polite)
              (post.1 (sock ∷ socks))
              (accepted_same_sock welcome s.id iocp peer a session polite ∙ e₁) fresh,
        ),
      )

-- If the completion fails, its handle is closed, and the next accept may be given the same handle:
-- then the end of the old session closes the handle of the pending accept.
pub rejected_closes_next :
    (welcome : Session → Welcome) (iocp sock : ℕ) (a : AcceptedAnswers) (next : AcceptAnswers)
    (s : Server) (session : Session) (socks : List ℕ)
    → session.sock ≡ some sock
    → (a.updated ≡ false) ⊎ (a.peer ≡ none)
    → s.fn_accept_ex ≡ true
    → next.wsa_socket ≡ some sock
    → all_succeed next ≡ true
    → let after = handle_accept_complete welcome iocp a next s session in
      (after.accepting ≡ some (new_session next.allocation sock s.id))
      × (replay after.calls (sock ∷ socks) ≡ some socks)
unfolding handle_accept_complete complete_accept post_accept_ex let_go destroy replay remove
rejected_closes_next welcome iocp sock a next s session socks e₁ failed e₃ e₄ e₅ = ground arith

-- If it is given another one, the handle is closed twice.
pub rejected_closes_twice :
    (welcome : Session → Welcome) (iocp sock next_sock : ℕ) (a : AcceptedAnswers)
    (next : AcceptAnswers) (s : Server) (session : Session) (socks : List ℕ)
    → session.sock ≡ some sock
    → (a.updated ≡ false) ⊎ (a.peer ≡ none)
    → s.fn_accept_ex ≡ true
    → next.wsa_socket ≡ some next_sock
    → all_succeed next ≡ true
    → remove sock (next_sock ∷ socks) ≡ none
    → replay (handle_accept_complete welcome iocp a next s session).calls (sock ∷ socks) ≡ none
unfolding handle_accept_complete complete_accept post_accept_ex let_go destroy replay remove
rejected_closes_twice welcome iocp sock next_sock a next s session socks e₁ failed e₃ e₄ e₅ e₆ =
    ground arith
