-- ===== src/Client/Delay.antt =====
-- How far apart the reconnect thread makes its attempts.
use jun_core_v.Common.{ℕ, ◌+◌, ◌≤◌, ◌<◌, ◌≡◌, arith}
use jun_core_v.Client.{wake_up}

-- Three rounds in a row, woken at `t₁`, `t₂` and `t₃` and posting at `p₁`, `p₂` and `p₃`: the third
-- posts at least 1000 ms after the first.
pub every_second_round_delayed :
    (last t₁ p₁ t₂ p₂ t₃ p₃ : ℕ)
    → (wake_up t₁ last).1 ≤ p₁
    → p₁ ≤ t₂
    → (wake_up t₂ (wake_up t₁ last).0).1 ≤ p₂
    → p₂ ≤ t₃
    → (wake_up t₃ (wake_up t₂ (wake_up t₁ last).0).0).1 ≤ p₃
    → p₁ + 1000 ≤ p₃
unfolding wake_up
every_second_round_delayed last t₁ p₁ t₂ p₂ t₃ p₃ h₁ h₁' h₂ h₂' h₃ = ground arith

-- After a round that slept because `d` ms had passed, a wakeup `d` ms after its posts posts at once.
pub next_round_not_delayed :
    (last d : ℕ)
    → d < 1000
    → ((wake_up (last + d) last).1 ≡ last + 1000)
      × ((wake_up (last + 1000 + d) (wake_up (last + d) last).0).1 ≡ last + 1000 + d)
unfolding wake_up
next_round_not_delayed last d h = ground arith
