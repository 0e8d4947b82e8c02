-- ===== src/GameWorld/Tests.antt =====
-- Two scenes on two threads and an object 7 in the first of them.
use jun_core_v.Common.{
  ℕ, ◌+◌, ◌≡◌, refl, List, [], ◌∷◌, ◌==◌, false, some, none, if◌then◌else◌, arith,
}
use jun_core_v.GameWorld.{
  ManagerJob, register, unregister, post_to, run_manager_jobs, run_manager_job, find, erase, World,
}
use jun_core_v.GameWorld.Count.{count}
use jun_core_v.GameWorld.Placement.{IsPlaced}

abbrev world : World
world = record {
  objects = λ scene. if scene == 1 then 7 ∷ [] else [];
  scene = λ obj. if obj == 7 then some 1 else none;
  sn = λ obj. obj + 100;
  job_thread = λ obj. 11;
  marked_for_delete = λ obj. false;
  next_sn = 108;
  registry = (107, 7) ∷ [];
  manager_jobs = [];
  forwarded = [];
  hooks = [];
}

abbrev thread_of : ℕ → ℕ
thread_of scene = scene + 10

world-IsPlaced : IsPlaced world
unfolding count
world-IsPlaced obj scene = ground arith

manager_script : List ManagerJob
manager_script =
    register 200 9 ∷ post_to 107 1 ∷ unregister 107 ∷ post_to 107 2 ∷ post_to 200 3 ∷ []

run-manager_script : (run_manager_jobs manager_script world).forwarded ≡ (7, 1) ∷ (9, 3) ∷ []
unfolding manager_script run_manager_jobs run_manager_job find erase
run-manager_script = refl
