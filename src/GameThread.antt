-- ===== src/GameThread.antt =====
-- JunCore/logic/GameThread.cpp: the frames of a game thread. The type `float` of the times and its
-- arithmetic, with all its rounding, are parameters. What a frame calls is recorded; the scenes and the
-- jobs do as they like with the rest of the program, not with the members of the thread.
pub mod Frames
mod Tests
use jun_core_v.Common.{
  ℕ, zero, suc, ◌+◌, List, [], ◌∷◌, ◌++◌, map, Bool, ◌==◌, if◌then◌else◌, Option, none, some,
}

-- The operators on `float` that a frame uses: `+=`, `-=` and `>=`.
pub record Float (F : Type 0) : Type 0 where
  pub add : F → F → F
  pub sub : F → F → F
  pub ge : F → F → Bool

pub data Call : Type 0 where
  process_job_objects : Call
  fixed_update update : ℕ → Call

pub record GameThread (F : Type 0) : Type 0 where
  pub scenes : List ℕ
  pub fixed_time_step : F
  pub fixed_time_accum : F
  pub delta_time : F
  pub time : F
  pub frame_count : ℕ
  pub calls : List Call

-- `AddScene`
unfoldable pub add_scene : {F : Type 0} → ℕ → GameThread F → GameThread F
add_scene scene g = record g { scenes = g.scenes ++ (scene ∷ []) }

unfoldable pub erase_scene : ℕ → List ℕ → List ℕ
erase_scene scene [] = []
erase_scene scene (s ∷ scenes) = if s == scene then scenes else s ∷ erase_scene scene scenes

-- `RemoveScene`
unfoldable pub remove_scene : {F : Type 0} → ℕ → GameThread F → GameThread F
remove_scene scene g = record g { scenes = erase_scene scene g.scenes }

abbrev pub end_frame : {F : Type 0} → GameThread F → GameThread F
end_frame g = record g { calls = g.calls ++ map update g.scenes }

abbrev pub then_end : {F : Type 0} → Option (GameThread F) → Option (GameThread F)
then_end none = none
then_end (some g) = some (end_frame g)

module _ {F : Type 0} (float : Float F) where
  abbrev pub fixed_round : GameThread F → GameThread F
  fixed_round g = record g {
    fixed_time_accum = float.sub g.fixed_time_accum g.fixed_time_step;
    calls = g.calls ++ map fixed_update g.scenes;
  }

  -- The loop of the fixed steps; `none` means that the fuel ran out.
  unfoldable pub fixed_loop : ℕ → GameThread F → Option (GameThread F)
  fixed_loop zero g = none
  fixed_loop (suc fuel) g =
      let rest = fixed_loop fuel (fixed_round g) in
      if float.ge g.fixed_time_accum g.fixed_time_step then rest else some g

  -- A frame up to the fixed steps, `dt` after the one before.
  abbrev pub begin_frame : F → GameThread F → GameThread F
  begin_frame dt g = record g {
    delta_time = dt;
    time = float.add g.time dt;
    frame_count = g.frame_count + 1;
    fixed_time_accum = float.add g.fixed_time_accum dt;
    calls = g.calls ++ (process_job_objects ∷ []);
  }

  -- The body of the loop of `Run`.
  unfoldable pub run_frame : ℕ → F → GameThread F → Option (GameThread F)
  run_frame fuel dt g = then_end (fixed_loop fuel (begin_frame dt g))
