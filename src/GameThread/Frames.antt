-- ===== src/GameThread/Frames.antt =====
-- What a frame of JunCore/logic/GameThread.cpp calls.
use jun_core_v.Common.{
  ℕ, zero, suc, ◌+◌, ◌<◌, ◌≡◌, refl, sym, ap, ◌∙◌, List, [], ◌∷◌, ◌++◌, append_assoc, append-nil,
  map, true, false, none, some, arith,
}
use jun_core_v.GameThread.{
  Float, Call, process_job_objects, fixed_update, update, GameThread, fixed_round, fixed_loop,
  begin_frame, run_frame, then_end,
}

-- So many rounds of the scenes.
unfoldable pub rounds : ℕ → List ℕ → List Call
rounds zero scenes = []
rounds (suc n) scenes = map fixed_update scenes ++ rounds n scenes

module _ {F : Type 0} (float : Float F) where
  -- What is left of an accumulated time after so many steps, each rounded.
  unfoldable pub left_after : ℕ → F → F → F
  left_after zero accum step = accum
  left_after (suc n) accum step = left_after n (float.sub accum step) step

  fixed_loop-rounds :
      (n fuel : ℕ) (g : GameThread F)
      → ((k : ℕ)
          → k < n
          → float.ge (left_after k g.fixed_time_accum g.fixed_time_step) g.fixed_time_step ≡ true)
      → float.ge (left_after n g.fixed_time_accum g.fixed_time_step) g.fixed_time_step ≡ false
      → n < fuel
      → fixed_loop float fuel g
        ≡ some (record g {
          fixed_time_accum = left_after n g.fixed_time_accum g.fixed_time_step;
          calls = g.calls ++ rounds n g.scenes;
        })
  unfolding fixed_loop rounds left_after
  fixed_loop-rounds n zero g more done enough = absurd (omega arith)
  fixed_loop-rounds zero (suc fuel) g more done enough =
      rw done (ap (λ c. some (record g { calls = c })) (sym (append-nil g.calls)))
  fixed_loop-rounds (suc n) (suc fuel) g more done enough = rw (more 0 (omega arith)) (
      fixed_loop-rounds n fuel (fixed_round float g) (λ k h. more (suc k) (omega arith)) done
        (omega arith)
      ∙ ap
          (λ c. some (record g {
            fixed_time_accum =
                left_after n (float.sub g.fixed_time_accum g.fixed_time_step) g.fixed_time_step;
            calls = c;
          }))
          (append_assoc g.calls (map fixed_update g.scenes) (rounds n g.scenes)))

  -- Where the subtraction changes nothing, as `float` rounds it for a large accumulated time and a
  -- small step, the loop does not end.
  pub fixed_loop-stuck :
      (fuel : ℕ) (g : GameThread F)
      → float.sub g.fixed_time_accum g.fixed_time_step ≡ g.fixed_time_accum
      → float.ge g.fixed_time_accum g.fixed_time_step ≡ true
      → fixed_loop float fuel g ≡ none
  unfolding fixed_loop
  fixed_loop-stuck zero g same more = refl
  fixed_loop-stuck (suc fuel) g same more =
      let again : float.ge (fixed_round float g).fixed_time_accum g.fixed_time_step ≡ true =
        rw same more in
      let fixed : float.sub (fixed_round float g).fixed_time_accum g.fixed_time_step
          ≡ (fixed_round float g).fixed_time_accum =
        ap (λ t. float.sub t g.fixed_time_step) same in
      rw more (fixed_loop-stuck fuel (fixed_round float g) fixed again)

  -- For any arithmetic of `float`: if the accumulated time and `dt` are first below the step after `n`
  -- subtractions of it, each rounded, and there is fuel for more than `n` rounds, a frame ends, and this
  -- is what it does: it runs the jobs, then `n` rounds of `FixedUpdate` on every scene in the order of
  -- the list, and then one `Update` on every scene; what the subtractions leave is kept for the next
  -- frame.
  pub run_frame-calls :
      (dt : F) (n fuel : ℕ) (g : GameThread F)
      → let accum = float.add g.fixed_time_accum dt in
        ((k : ℕ) → k < n → float.ge (left_after k accum g.fixed_time_step) g.fixed_time_step ≡ true)
        → float.ge (left_after n accum g.fixed_time_step) g.fixed_time_step ≡ false
        → n < fuel
        → run_frame float fuel dt g
          ≡ some (record g {
            delta_time = dt;
            time = float.add g.time dt;
            frame_count = g.frame_count + 1;
            fixed_time_accum = left_after n accum g.fixed_time_step;
            calls =
                ((g.calls ++ (process_job_objects ∷ [])) ++ rounds n g.scenes)
                ++ map update g.scenes;
          })
  unfolding run_frame
  run_frame-calls dt n fuel g more done enough =
      ap then_end (fixed_loop-rounds n fuel (begin_frame float dt g) more done enough)
