-- ===== src/GameWorld/Placement.antt =====
-- That the lists of GameScene.cpp and the `m_pScene` of GameObject.cpp agree, and what breaks it.
use jun_core_v.Common.{
  ℕ, ◌≡◌, refl, sym, ap, subst, ◌∙◌, [], ◌∷◌, true, false, if◌then◌else◌, Option, none, some,
  Option-cases, Bool-cases, inl, inr, arith,
}
use jun_core_v.GameWorld.{
  World, enter, exit, exit_current, update, is_scene, ObjectJob, destroying, leaving_for, entering,
  destroy, move_to_scene, run_job, run_jobs,
}
use jun_core_v.GameWorld.Count.{count, count-append, count-remove_first, count-remove_first_other}

-- Every object is listed once in its scene, and in no other.
abbrev pub IsPlaced : World → Type 0
IsPlaced w =
    (obj scene : ℕ) → count obj (w.objects scene) ≡ (if is_scene (w.scene obj) scene then 1 else 0)

pub enter-IsPlaced :
    (w : World) (obj scene : ℕ) → IsPlaced w → w.scene obj ≡ none → IsPlaced (enter scene obj w)
unfolding enter count
enter-IsPlaced w obj scene p e other place =
    ground (arith, e, p other place, p other scene, count-append other (w.objects scene) (obj ∷ []))

pub exit-IsPlaced :
    (w : World) (obj scene : ℕ)
    → IsPlaced w
    → w.scene obj ≡ some scene
    → IsPlaced (exit scene obj w)
unfolding exit
exit-IsPlaced w obj scene p e other place = ground (
  arith,
  e,
  p other place,
  p other scene,
  count-remove_first obj (w.objects scene),
  count-remove_first_other obj other (w.objects scene),
)

exit_current_if :
    (w : World) (obj : ℕ) (x : Option ℕ)
    → w.scene obj ≡ x
    → exit_current obj w ≡ elim x [ none ↦ w | some scene ↦ exit scene obj w ]
unfolding exit_current
exit_current_if w obj x e = ap (λ y. elim y [ none ↦ w | some scene ↦ exit scene obj w ]) e

-- `Exit` from the current scene, if there is one.
pub exit_current_lem :
    (w : World) (obj : ℕ)
    → IsPlaced w
    → IsPlaced (exit_current obj w)
      × ((exit_current obj w).scene obj ≡ none)
      × ((exit_current obj w).marked_for_delete ≡ w.marked_for_delete)
exit_current_lem w obj p = elim (Option-cases (w.scene obj)) [
  | inl e ↦ let same : exit_current obj w ≡ w = exit_current_if w obj none e in rw same (p, e, refl)
  | inr (scene, e) ↦
      let gone : exit_current obj w ≡ exit scene obj w = exit_current_if w obj (some scene) e in
      rw gone (exit-IsPlaced w obj scene p e, unfold exit in ground arith, unfold exit in refl)
]

module _ (game_thread : ℕ → ℕ) where
  -- The last job of a list is run whatever the mark says.
  run_one :
      (job : ObjectJob) (obj : ℕ) (w : World)
      → run_jobs game_thread (job ∷ []) obj w ≡ run_job game_thread job obj w
  unfolding run_jobs
  run_one job obj w = elim (Bool-cases ((run_job game_thread job obj w).marked_for_delete obj)) [
    | inl e ↦ rw e refl
    | inr e ↦ rw e refl
  ]

  run_two :
      (job job' : ObjectJob) (obj : ℕ) (w v : World)
      → run_job game_thread job obj w ≡ v
      → v.marked_for_delete obj ≡ false
      → run_jobs game_thread (job ∷ job' ∷ []) obj w ≡ run_job game_thread job' obj v
  run_two job job' obj w v e unmarked =
      first ∙ run_one job' obj (run_job game_thread job obj w) ∙ ap (run_job game_thread job' obj) e
    where
      first :
          run_jobs game_thread (job ∷ job' ∷ []) obj w
          ≡ run_jobs game_thread (job' ∷ []) obj (run_job game_thread job obj w)
      first =
          unfold run_jobs in
          ap
            (λ b.
              if b
              then run_job game_thread job obj w
              else run_jobs game_thread (job' ∷ []) obj (run_job game_thread job obj w))
            (ap (λ u. u.marked_for_delete obj) e ∙ unmarked)

  abbrev left_for : ℕ → ℕ → World → World
  left_for scene obj w = record (exit_current obj w) {
    job_thread = update (exit_current obj w).job_thread obj (game_thread scene);
  }

  leave_for :
      (w : World) (obj scene : ℕ)
      → is_scene (w.scene obj) scene ≡ false
      → run_job game_thread (leaving_for scene) obj w ≡ left_for scene obj w
  unfolding run_job
  leave_for w obj scene e = ap (λ b. if b then w else left_for scene obj w) e

  -- Moving an unmarked object to another scene leaves it listed once there and nowhere else, on the
  -- thread of that scene, and the lists of all scenes still agree with the scenes of all objects.
  pub move_to_scene_lem :
      (w : World) (obj scene : ℕ)
      → IsPlaced w
      → w.marked_for_delete obj ≡ false
      → is_scene (w.scene obj) scene ≡ false
      → let w' = run_jobs game_thread (move_to_scene (some scene)) obj w in
        IsPlaced w' × (w'.scene obj ≡ some scene) × (w'.job_thread obj ≡ game_thread scene)
  unfolding move_to_scene
  move_to_scene_lem w obj scene p unmarked elsewhere =
      let (p', out, mark) = exit_current_lem w obj p in
      let moved : run_jobs game_thread (leaving_for scene ∷ entering scene ∷ []) obj w
          ≡ run_job game_thread (entering scene) obj (left_for scene obj w) =
        run_two (leaving_for scene) (entering scene) obj w (left_for scene obj w)
          (leave_for w obj scene elsewhere) (ap (λ m. m obj) mark ∙ unmarked) in
      subst
        (λ (w' : World).
          IsPlaced w' × (w'.scene obj ≡ some scene) × (w'.job_thread obj ≡ game_thread scene))
        (sym moved) (entered (left_for scene obj w) p' out (ground arith))
    where
      entered :
          (v : World)
          → IsPlaced v
          → v.scene obj ≡ none
          → v.job_thread obj ≡ game_thread scene
          → let w' = run_job game_thread (entering scene) obj v in
            IsPlaced w' × (w'.scene obj ≡ some scene) × (w'.job_thread obj ≡ game_thread scene)
      entered v p' out on =
          unfold run_job in
          (enter-IsPlaced v obj scene p' out, unfold enter in ground arith, unfold enter in on)

  -- Destroying an object takes it out of every list and marks it, and the lists of all scenes still
  -- agree with the scenes of all objects.
  pub destroy_lem :
      (w : World) (obj : ℕ)
      → IsPlaced w
      → let w' = run_jobs game_thread destroy obj w in
        IsPlaced w'
        × ((scene : ℕ) → count obj (w'.objects scene) ≡ 0)
        × (w'.marked_for_delete obj ≡ true)
  unfolding destroy
  destroy_lem w obj p =
      subst
        (λ (w' : World).
          IsPlaced w'
          × ((scene : ℕ) → count obj (w'.objects scene) ≡ 0)
          × (w'.marked_for_delete obj ≡ true))
        (sym (run_one destroying obj w)) gone
    where
      gone :
          let w' = run_job game_thread destroying obj w in
          IsPlaced w'
          × ((scene : ℕ) → count obj (w'.objects scene) ≡ 0)
          × (w'.marked_for_delete obj ≡ true)
      gone =
          unfold run_job in
          (let (p', out, mark) = exit_current_lem w obj p in
            (p', λ scene. p' obj scene ∙ rw out refl, ground arith))

  stay_in :
      (w : World) (obj scene : ℕ)
      → w.scene obj ≡ some scene
      → run_job game_thread (leaving_for scene) obj w ≡ w
  unfolding run_job
  stay_in w obj scene e =
      let there : is_scene (w.scene obj) scene ≡ true = ground (arith, e) in
      ap (λ b. if b then w else left_for scene obj w) there

  listed_again :
      (w : World) (obj scene : ℕ)
      → IsPlaced w
      → w.scene obj ≡ some scene
      → count obj ((run_job game_thread (entering scene) obj w).objects scene) ≡ 2
  unfolding run_job enter count
  listed_again w obj scene p here =
      ground (arith, here, p obj scene, count-append obj (w.objects scene) (obj ∷ []))

  -- Moving an unmarked object to the scene that it is in lists it there twice: the first job of
  -- `MoveToScene` returns early, and the second enters the scene again.
  pub move_to_same_scene :
      (w : World) (obj scene : ℕ)
      → IsPlaced w
      → w.marked_for_delete obj ≡ false
      → w.scene obj ≡ some scene
      → let w' = run_jobs game_thread (move_to_scene (some scene)) obj w in
        count obj (w'.objects scene) ≡ 2
  unfolding move_to_scene
  move_to_same_scene w obj scene p unmarked here =
      let again =
        run_two (leaving_for scene) (entering scene) obj w w (stay_in w obj scene here) unmarked in
      ap (λ (w' : World). count obj (w'.objects scene)) again ∙ listed_again w obj scene p here
