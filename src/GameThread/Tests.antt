-- ===== src/GameThread/Tests.antt =====
-- GameThread.cpp at a concrete frame, with whole milliseconds for the times.
use jun_core_v.Common.{
  ℕ, zero, suc, ◌+◌, ◌-◌, ◌≡◌, ◌<◌, refl, [], ◌∷◌, ◌++◌, map, some, true, leb, arith,
}
use jun_core_v.GameThread.{
  Float, process_job_objects, fixed_update, update, GameThread, add_scene, remove_scene,
  erase_scene, run_frame, fixed_loop,
}
use jun_core_v.GameThread.Frames.{rounds, left_after, run_frame-calls}

abbrev milliseconds : Float ℕ
milliseconds = record { add = λ a b. a + b; sub = λ a b. a - b; ge = λ a b. leb b a }

abbrev thread : GameThread ℕ
thread = record {
  scenes = 1 ∷ 2 ∷ [];
  fixed_time_step = 20;
  fixed_time_accum = 15;
  delta_time = 0;
  time = 0;
  frame_count = 0;
  calls = [];
}

-- Before the third subtraction less than a step is left.
two_fit : (k : ℕ) → k < 2 → leb 20 (left_after milliseconds k 45 20) ≡ true
unfolding left_after
two_fit zero h = refl
two_fit (suc zero) h = refl
two_fit (suc (suc k)) h = absurd (omega arith)

run_frame-calls_example :
    run_frame milliseconds 3 30 thread
    ≡ some (record thread {
      delta_time = 30;
      time = 30;
      frame_count = 1;
      fixed_time_accum = left_after milliseconds 2 45 20;
      calls =
          (([] ++ (process_job_objects ∷ [])) ++ rounds 2 (1 ∷ 2 ∷ [])) ++ map update (1 ∷ 2 ∷ []);
    })
unfolding left_after
run_frame-calls_example = run_frame-calls milliseconds 30 2 3 thread two_fit refl (omega arith)

two_steps :
    run_frame milliseconds 46 30 thread
    ≡ some (record thread {
      delta_time = 30;
      time = 30;
      frame_count = 1;
      fixed_time_accum = 5;
      calls =
          process_job_objects
          ∷ fixed_update 1
          ∷ fixed_update 2
          ∷ fixed_update 1
          ∷ fixed_update 2
          ∷ update 1
          ∷ update 2
          ∷ [];
    })
unfolding run_frame fixed_loop
two_steps = refl

removed : (remove_scene 1 (add_scene 3 thread)).scenes ≡ 2 ∷ 3 ∷ []
unfolding remove_scene add_scene erase_scene
removed = refl
