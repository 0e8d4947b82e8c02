-- ===== src/GameWorld/Registry.antt =====
-- The registry of GameObjectManager.cpp against a function from serial numbers to objects.
use jun_core_v.Common.{
  ℕ, ◌≡◌, refl, ap, fun_ext, ◌∙◌, List, [], ◌∷◌, ◌++◌, ◌==◌, if◌then◌else◌, Option, none, some,
  arith,
}
use jun_core_v.GameWorld.{
  World, ManagerJob, register, unregister, post_to, update, find, erase, run_manager_job,
  run_manager_jobs,
}

-- Who has which number, and what was posted to whom.
abbrev pub Directory : Type 0
Directory = (ℕ → Option ℕ) × List (ℕ × ℕ)

abbrev forward : ℕ → Option ℕ → List (ℕ × ℕ) → List (ℕ × ℕ)
forward job none posts = posts
forward job (some obj) posts = posts ++ ((obj, job) ∷ [])

abbrev pub directory_step : ManagerJob → Directory → Directory
directory_step (register sn obj) (who, posts) = (update who sn (some obj), posts)
directory_step (unregister sn) (who, posts) = (update who sn none, posts)
directory_step (post_to sn job) (who, posts) = (who, forward job (who sn) posts)

unfoldable pub directory_run : List ManagerJob → Directory → Directory
directory_run [] d = d
directory_run (job ∷ jobs) d = directory_run jobs (directory_step job d)

abbrev pub directory_of : World → Directory
directory_of w = ((λ sn. find sn w.registry), w.forwarded)

find-erase :
    (sn k : ℕ) (entries : List (ℕ × ℕ))
    → find k (erase sn entries) ≡ (if sn == k then none else find k entries)
unfolding find erase
find-erase sn k [] = ground arith
find-erase sn k ((k', obj) ∷ entries) = ground (arith, find-erase sn k entries)

forwarded_to :
    (found : Option ℕ) (job : ℕ) (w : World)
    → directory_of (elim found [
      | none ↦ w
      | some obj ↦ record w { forwarded = w.forwarded ++ ((obj, job) ∷ []) }
    ])
      ≡ ((λ sn. find sn w.registry), forward job found w.forwarded)
forwarded_to none job w = refl
forwarded_to (some obj) job w = refl

directory_of-run_manager_job :
    (job : ManagerJob) (w : World)
    → directory_of (run_manager_job job w) ≡ directory_step job (directory_of w)
unfolding run_manager_job find
directory_of-run_manager_job (register sn obj) w =
    ap (λ who. (who, w.forwarded)) (fun_ext (λ k. ground arith))
directory_of-run_manager_job (unregister sn) w =
    ap (λ who. (who, w.forwarded)) (fun_ext (λ k. find-erase sn k w.registry))
directory_of-run_manager_job (post_to sn job) w = forwarded_to (find sn w.registry) job w

-- Whatever jobs the manager runs, in their order, `PostTo` reaches the object that was registered
-- last under its number and not removed since, and no object otherwise.
pub registry_refines :
    (jobs : List ManagerJob) (w : World)
    → directory_of (run_manager_jobs jobs w) ≡ directory_run jobs (directory_of w)
unfolding run_manager_jobs directory_run
registry_refines [] w = refl
registry_refines (job ∷ jobs) w =
    registry_refines jobs (run_manager_job job w)
    ∙ ap (directory_run jobs) (directory_of-run_manager_job job w)
