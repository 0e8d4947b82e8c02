-- ===== src/GameWorld.antt =====
-- JunCore/logic/GameObject.cpp, GameScene.cpp and GameObjectManager.cpp: objects that live in one
-- scene each, and the registry that finds them by serial number. Scenes, objects and threads are
-- numbers; a scene's thread is an argument. The jobs that an object posts to itself run one at a time
-- and in order, which module JobObject shows, so a job is a function of the state; the manager's jobs
-- are queued in the state. The virtual functions of a game are recorded as `Hook`s.
pub mod Count
pub mod Placement
pub mod Registry
mod Tests
use jun_core_v.Common.{
  ℕ, zero, suc, ◌+◌, ◌%◌, ◌^◌, List, [], ◌∷◌, ◌++◌, Bool, true, false, ◌==◌, if◌then◌else◌, Option,
  none, some,
}

pub data Hook : Type 0 where
  on_enter on_exit on_before_destroy : ℕ → Hook

-- What is posted to the manager: `Register`, `Unregister` and `PostTo` with a job's number.
pub data ManagerJob : Type 0 where
  register : ℕ → ℕ → ManagerJob
  unregister : ℕ → ManagerJob
  post_to : ℕ → ℕ → ManagerJob

-- `m_objects` of each scene, `m_pScene`, `m_sn`, `m_pJobThread` and `m_markedForDelete` of each object,
-- `m_nextSN`, the manager's `m_objects` and queue, and what was posted to the objects through it.
pub record World : Type 0 where
  pub objects : ℕ → List ℕ
  pub scene : ℕ → Option ℕ
  pub sn : ℕ → ℕ
  pub job_thread : ℕ → ℕ
  pub marked_for_delete : ℕ → Bool
  pub next_sn : ℕ
  pub registry : List (ℕ × ℕ)
  pub manager_jobs : List ManagerJob
  pub forwarded : List (ℕ × ℕ)
  pub hooks : List Hook

abbrev pub update {ℓ} : {A : Type ℓ} → (ℕ → A) → ℕ → A → ℕ → A
update f k a n = if k == n then a else f n

-- `std::find` and `erase`: the first entry of an object goes.
unfoldable pub remove_first : ℕ → List ℕ → List ℕ
remove_first obj [] = []
remove_first obj (x ∷ xs) = let rest = remove_first obj xs in if obj == x then xs else x ∷ rest

unfoldable pub enter : ℕ → ℕ → World → World
enter scene obj w = record w {
  objects = update w.objects scene (w.objects scene ++ (obj ∷ []));
  scene = update w.scene obj (some scene);
  hooks = w.hooks ++ (on_enter obj ∷ []);
  manager_jobs = w.manager_jobs ++ (register (w.sn obj) obj ∷ []);
}

unfoldable pub exit : ℕ → ℕ → World → World
exit scene obj w = record w {
  hooks = w.hooks ++ (on_exit obj ∷ []);
  scene = update w.scene obj none;
  objects = update w.objects scene (remove_first obj (w.objects scene));
}

-- `if (m_pScene) m_pScene->Exit(this);`
unfoldable pub exit_current : ℕ → World → World
exit_current obj w = elim (w.scene obj) [ none ↦ w | some scene ↦ exit scene obj w ]

-- `m_pScene == newScene`
abbrev pub is_scene : Option ℕ → ℕ → Bool
is_scene none scene = false
is_scene (some s) scene = s == scene

-- The jobs that an object posts to itself.
pub data ObjectJob : Type 0 where
  destroying leaving : ObjectJob
  leaving_for entering : ℕ → ObjectJob

pub destroy : List ObjectJob
destroy = destroying ∷ []

pub exit_scene : List ObjectJob
exit_scene = leaving ∷ []

unfoldable pub move_to_scene : Option ℕ → List ObjectJob
move_to_scene none = []
move_to_scene (some new_scene) = leaving_for new_scene ∷ entering new_scene ∷ []

module _ (game_thread : ℕ → ℕ) where
  -- A new object, with the address `obj`, and the job that `Create` posts to it.
  pub create : ℕ → ℕ → World → World × List ObjectJob
  create obj scene w = (
    record w {
      scene = update w.scene obj (some scene);
      sn = update w.sn obj w.next_sn;
      next_sn = (w.next_sn + 1) % 2 ^ 64;
      job_thread = update w.job_thread obj (game_thread scene);
      marked_for_delete = update w.marked_for_delete obj false;
    },
    entering scene ∷ [],
  )

  unfoldable pub run_job : ObjectJob → ℕ → World → World
  run_job destroying obj w =
      let w' = exit_current obj w in
      record w' {
        hooks = w'.hooks ++ (on_before_destroy obj ∷ []);
        manager_jobs = w'.manager_jobs ++ (unregister (w'.sn obj) ∷ []);
        marked_for_delete = update w'.marked_for_delete obj true;
      }
  run_job leaving obj w = exit_current obj w
  run_job (leaving_for new_scene) obj w =
      if is_scene (w.scene obj) new_scene
      then w
      else (let w' = exit_current obj w in
          record w' { job_thread = update w'.job_thread obj (game_thread new_scene) })
  run_job (entering scene) obj w = enter scene obj w

  -- `Flush`, which drops the rest once the object is marked.
  unfoldable pub run_jobs : List ObjectJob → ℕ → World → World
  run_jobs [] obj w = w
  run_jobs (job ∷ jobs) obj w =
      let w' = run_job job obj w in
      let w'' = run_jobs jobs obj w' in if w'.marked_for_delete obj then w' else w''

-- The manager's map by serial number, the newest entry of a number first.
unfoldable pub find : ℕ → List (ℕ × ℕ) → Option ℕ
find sn [] = none
find sn ((k, obj) ∷ entries) = let rest = find sn entries in if sn == k then some obj else rest

unfoldable pub erase : ℕ → List (ℕ × ℕ) → List (ℕ × ℕ)
erase sn [] = []
erase sn ((k, obj) ∷ entries) =
    let rest = erase sn entries in if sn == k then rest else (k, obj) ∷ rest

unfoldable pub run_manager_job : ManagerJob → World → World
run_manager_job (register sn obj) w = record w { registry = (sn, obj) ∷ w.registry }
run_manager_job (unregister sn) w = record w { registry = erase sn w.registry }
run_manager_job (post_to sn job) w = elim (find sn w.registry) [
  | none ↦ w
  | some obj ↦ record w { forwarded = w.forwarded ++ ((obj, job) ∷ []) }
]

unfoldable pub run_manager_jobs : List ManagerJob → World → World
run_manager_jobs [] w = w
run_manager_jobs (job ∷ jobs) w = run_manager_jobs jobs (run_manager_job job w)
