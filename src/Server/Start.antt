-- ===== src/Server/Start.antt =====
-- What a start of the server leaves behind, and what a stop takes away.
use jun_core_v.Common.{
  ℕ, ◌≡◌, refl, List, Option-cases, inl, inr, [], ◌∷◌, ◌++◌, map, Bool, true, false, none, some,
  arith,
}
use jun_core_v.Session.{Session}
use jun_core_v.Sockets.{replay, remove}
use jun_core_v.Accept.{post_accept_ex}
use jun_core_v.Server.{
  Server, StartAnswers, start_server, start_listening, start_accepting, stop_server,
}

-- No game thread runs, or every one does.
abbrev pub AllAre : Bool → List Bool → Type 0
AllAre b [] = Unit {0}
AllAre b (r ∷ rs) = (r ≡ b) × AllAre b rs

map-AllAre : (b : Bool) (rs : List Bool) → AllAre b (map (λ r. b) rs)
map-AllAre b [] = tt
map-AllAre b (r ∷ rs) = (refl, map-AllAre b rs)

-- A start that fails, but neither in `AcceptEx` nor in `OnServerStart`, leaves a stopped server stopped:
-- the same handles are open as before, no accept is posted, and no thread runs.
pub failed_start-releases :
    (initialized : Bool) (a : StartAnswers) (s : Server) (socks : List ℕ)
    → s.running ≡ false
    → s.core_running ≡ false
    → AllAre false s.game_running
    → a.accept.accepting ≡ true
    → a.started ≡ true
    → (start_server initialized a s).result ≡ false
    → let after = start_server initialized a s in
      (replay after.calls socks ≡ some socks)
      × (after.accepting ≡ none)
      × (after.server.running ≡ false)
      × (after.server.core_running ≡ false)
      × AllAre false after.server.game_running
unfolding start_server start_listening start_accepting post_accept_ex replay remove
failed_start-releases initialized a s socks h₁ h₂ h₃ h₄ h₅ h =
    ground (arith, map-AllAre false (map (λ r. true) s.game_running))

-- After a start that succeeds the server runs, its listener and the socket of the pending accept are
-- open, and its threads run; after the next stop it does not run, the listener is closed, the threads
-- have stopped, and the socket of the accept is still open.
pub stop-start :
    (initialized : Bool) (a : StartAnswers) (s : Server) (socks : List ℕ)
    → (start_server initialized a s).result ≡ true
    → let after = start_server initialized a s in
      let stopped = stop_server after.server in
      (sock accepted : ℕ) × (a.accept.wsa_socket ≡ some accepted)
      × (replay after.calls socks ≡ some (accepted ∷ sock ∷ socks))
      × (after.server.running ≡ true)
      × (after.server.listener ≡ some sock)
      × (after.server.core_running ≡ true)
      × AllAre true after.server.game_running
      × (replay (after.calls ++ stopped.1) socks ≡ some (accepted ∷ socks))
      × (stopped.0.running ≡ false)
      × (stopped.0.listener ≡ none)
      × (stopped.0.core_running ≡ false)
      × AllAre false stopped.0.game_running
unfolding start_server start_listening start_accepting post_accept_ex replay remove stop_server
stop-start initialized a s socks h = elim (Option-cases a.socket) [
  | inl e ↦ absurd (ground (arith, e))
  | inr (sock, e) ↦ elim (Option-cases a.accept.wsa_socket) [
    | inl e' ↦ absurd (ground (arith, e, e'))
    | inr (accepted, e') ↦ (
      sock,
      accepted,
      e',
      ground arith,
      ground arith,
      ground arith,
      ground arith,
      ground (arith, map-AllAre true s.game_running),
      ground arith,
      ground arith,
      ground arith,
      ground arith,
      ground (arith, map-AllAre false (start_server initialized a s).server.game_running),
    )
  ]
]

-- If `OnServerStart` throws, the start reports a failure, but the server runs, listens and accepts.
pub throwing_start-runs :
    (initialized : Bool) (a : StartAnswers) (s : Server) (session : Session)
    → a.started ≡ false
    → (start_server initialized a s).accepting ≡ some session
    → let after = start_server initialized a s in
      (after.result ≡ false) × (after.server.running ≡ true) × (after.server.listener ≡ a.socket)
unfolding start_server start_listening start_accepting
throwing_start-runs initialized a s session h h' = ground arith
