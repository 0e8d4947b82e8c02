-- ===== src/Connect/Handles.antt =====
-- The socket handles that the functions of module Connect leave open.
use jun_core_v.Common.{
  ℕ, ◌≡◌, List, ◌∷◌, Bool, true, false, ◌&&◌, if◌then◌else◌, Option, none, some, arith,
}
use jun_core_v.Session.{Session, new_session, destroy, recv_async}
use jun_core_v.Sockets.{replay, remove}
use jun_core_v.Connect.{
  ConnectAnswers, CompleteAnswers, Completion, live, reconnect, unclaimed, post_connect_ex,
  load_connect_ex_functions, handle_connect_complete, connected,
}

-- Whether `PostConnectEx` comes to make the session.
abbrev pub makes_session : Bool → ConnectAnswers → Bool
makes_session fn_connect_ex a =
    fn_connect_ex
    && a.bound
    && a.registered
    && elim a.wsa_socket [ none ↦ false | some sock ↦ true ]

-- Of the sockets `PostConnectEx` makes, it leaves the new one open if it returns true, and none if it
-- fails before it makes the session. If it fails after that, it closes the new handle twice.
pub post_connect_ex-handles :
    (fn_connect_ex : Bool) (engine sock : ℕ) (a : ConnectAnswers) (socks : List ℕ)
    → a.wsa_socket ≡ some sock
    → remove sock socks ≡ none
    → replay (post_connect_ex fn_connect_ex engine a).1 socks
      ≡ elim (post_connect_ex fn_connect_ex engine a).0 [
        | some session ↦ some (sock ∷ socks)
        | none ↦ if makes_session fn_connect_ex a then none else some socks
      ]
unfolding post_connect_ex replay remove destroy new_session
post_connect_ex-handles fn_connect_ex engine sock a socks e fresh = ground (arith)

pub load_connect_ex_functions-handles :
    (sock : Option ℕ) (loaded : Bool) (socks : List ℕ)
    → replay (load_connect_ex_functions sock loaded).1 socks ≡ some socks
unfolding load_connect_ex_functions replay remove
load_connect_ex_functions-handles sock loaded socks = ground arith

-- What a completion does with the handle of its session.
abbrev pub Leaves : ℕ → List ℕ → Completion → Type 0
Leaves sock socks (live s calls) =
    (s.sock ≡ some sock) × (replay calls (sock ∷ socks) ≡ some (sock ∷ socks))
Leaves sock socks (reconnect calls) = replay calls (sock ∷ socks) ≡ none
Leaves sock socks (unclaimed calls) = ⊥

-- A completion for a client leaves the handle of the session open if the connection is made, and
-- closes it twice if it is not.
pub handle_connect_complete-handles :
    (client iocp sock : ℕ) (a : CompleteAnswers) (session : Session) (socks : List ℕ)
    → session.sock ≡ some sock
    → remove sock socks ≡ none
    → Leaves sock socks (handle_connect_complete (some client) iocp a session)
unfolding handle_connect_complete connected recv_async destroy replay remove
handle_connect_complete-handles client iocp sock a session socks e fresh = ground arith
