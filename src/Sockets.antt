-- ===== src/Sockets.antt =====
-- The socket handles of the process, as the calls of a function leave them.
use jun_core_v.Common.{
  ℕ, refl, Option-cases, inl, inr, ◌++◌, List, [], ◌∷◌, ◌≡◌, ◌==◌, if◌then◌else◌, Option, none,
  some, arith,
}
use jun_core_v.Session.{Call, open_socket, close_socket}
use mathlib.Core.Option

-- Takes the handle out of those that are open; `none` if it is not open.
unfoldable pub remove : ℕ → List ℕ → Option (List ℕ)
remove sock [] = none
remove sock (s ∷ open_socks) =
    let rest = remove sock open_socks in
    if s == sock then some open_socks else Option.map (λ socks. s ∷ socks) rest

-- The handles that are open after the calls, or `none` if one of them closes a handle that is not
-- open, which may be somebody else's by then.
unfoldable pub replay : List Call → List ℕ → Option (List ℕ)
replay [] socks = some socks
replay (open_socket sock ∷ calls) socks = replay calls (sock ∷ socks)
replay (close_socket sock ∷ calls) socks = elim (remove sock socks) [
  | none ↦ none
  | some rest ↦ replay calls rest
]
replay (call ∷ calls) socks = replay calls socks

pub remove-head : (sock : ℕ) (socks : List ℕ) → remove sock (sock ∷ socks) ≡ some socks
unfolding remove
remove-head sock socks = ground arith

abbrev pub then_replay : List Call → Option (List ℕ) → Option (List ℕ)
then_replay calls none = none
then_replay calls (some socks) = replay calls socks

pub replay-append :
    (before after : List Call) (socks : List ℕ)
    → replay (before ++ after) socks ≡ then_replay after (replay before socks)
unfolding replay
replay-append [] after socks = refl
replay-append (open_socket sock ∷ calls) after socks = replay-append calls after (sock ∷ socks)
replay-append (close_socket sock ∷ calls) after socks = elim (Option-cases (remove sock socks)) [
  | inl e ↦ rw (e, replay) refl
  | inr (rest, e) ↦ rw (e, replay) (replay-append calls after rest)
]
replay-append (call ∷ calls) after socks = replay-append calls after socks
