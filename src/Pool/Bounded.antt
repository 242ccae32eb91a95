-- ===== src/Pool/Bounded.antt =====
-- The tasks of one call come to an end.
use rf_class_groups.Base.{
  ℕ, zero, suc, ◌+◌, ◌*◌, ◌-◌, ◌≤◌, ◌<◌, ◌≡◌, min, ltb, leb, inl, inr, refl, Bool, true, false,
  Bool-cases, Bool-clash, List, [], ◌∷◌, length, arith,
}
use rf_class_groups.Pool.{
  Task, ready, claiming, leaving, finished, working, Shared, advance, move_of, at_start,
  pushed_tasks,
}

-- Whether a task has not been counted yet.
abbrev is_active : Task → Bool
is_active finished = false
is_active _ = true

-- Whether there is such a task at an index.
abbrev can_move : ℕ → List Task → Bool
can_move k [] = false
can_move zero (t ∷ tasks) = is_active t
can_move (suc k) (t ∷ tasks) = can_move k tasks

-- How many moves a task may still take.
abbrev rank : Task → ℕ
rank ready = 3
rank claiming = 2
rank leaving = 1
rank finished = 0
rank (working i stop) = (stop - i) + 4

abbrev all_ranks : List Task → ℕ
all_ranks [] = 0
all_ranks (t ∷ tasks) = rank t + all_ranks tasks

module _ (end chunk_size : ℕ) (throws : ℕ → Bool) (positive : 1 ≤ chunk_size) where
  abbrev unclaimed : Shared → ℕ
  unclaimed s = 4 * (end - s.cursor)

  -- Every move of the schedule is of a task that has not finished.
  abbrev pub IsActive : List ℕ → Shared → List Task → Type 0
  IsActive [] s tasks = Unit {0}
  IsActive (k ∷ schedule) s tasks =
      (can_move k tasks ≡ true)
      × IsActive schedule (move_of end chunk_size throws k s tasks).0
          (move_of end chunk_size throws k s tasks).1

  claimed :
      (c : ℕ)
      → leb end c ≡ false
      → 4 * (end - (c + chunk_size)) + ((min (c + chunk_size) end - c) + 4) < 4 * (end - c) + 2
  claimed c h = ground arith

  advance-unclaimed :
      (s : Shared) (t : Task)
      → is_active t ≡ true
      → unclaimed (advance end chunk_size throws s t).0 + rank (advance end chunk_size throws s t).1
        < unclaimed s + rank t
  unfolding advance
  advance-unclaimed s ready h = elim (Bool-cases s.has_exception) [
    | inl e ↦ rw e (omega arith)
    | inr e ↦ rw e (omega arith)
  ]
  advance-unclaimed s claiming h = elim (Bool-cases (leb end s.cursor)) [
    | inl e ↦ rw e (omega arith)
    | inr e ↦ rw e (claimed s.cursor e)
  ]
  advance-unclaimed s (working i stop) h = elim (Bool-cases (ltb i stop)) [
    | inl e ↦ elim (Bool-cases (throws i)) [
      | inl f ↦ rw (e, f) (omega arith)
      | inr f ↦ let below : i < stop = ground arith in rw (e, f) (omega arith)
    ]
    | inr e ↦ rw e (omega arith)
  ]
  advance-unclaimed s leaving h = omega arith
  advance-unclaimed s finished h = absurd (Bool-clash h refl)

  move_of-unclaimed :
      (k : ℕ) (s : Shared) (tasks : List Task)
      → can_move k tasks ≡ true
      → unclaimed (move_of end chunk_size throws k s tasks).0
          + all_ranks (move_of end chunk_size throws k s tasks).1
        < unclaimed s + all_ranks tasks
  unfolding move_of
  move_of-unclaimed k s [] h = absurd (Bool-clash h refl)
  move_of-unclaimed zero s (t ∷ tasks) h = omega (arith, advance-unclaimed s t h)
  move_of-unclaimed (suc k) s (t ∷ tasks) h = omega (arith, move_of-unclaimed k s tasks h)

  schedule_bound :
      (schedule : List ℕ) (s : Shared) (tasks : List Task)
      → IsActive schedule s tasks
      → length schedule ≤ unclaimed s + all_ranks tasks
  schedule_bound [] s tasks h = omega arith
  schedule_bound (k ∷ schedule) s tasks (h, hs) =
      let r = move_of end chunk_size throws k s tasks in
      omega (arith, move_of-unclaimed k s tasks h, schedule_bound schedule r.0 r.1 hs)

  pushed_tasks-ranks : (n_tasks : ℕ) → all_ranks (pushed_tasks n_tasks) ≡ 3 * n_tasks
  pushed_tasks-ranks zero = refl
  pushed_tasks-ranks (suc n_tasks) = omega (arith, pushed_tasks-ranks n_tasks)

  -- With a chunk size of at least 1, the tasks of a call take at most `4 * (end - begin) + 3 * n_tasks`
  -- atomic moves in whatever order they take them: no schedule of moves by unfinished tasks is longer.
  pub parallel_for_ends :
      (begin n_tasks : ℕ) (schedule : List ℕ)
      → IsActive schedule (at_start begin) (pushed_tasks n_tasks)
      → length schedule ≤ 4 * (end - begin) + 3 * n_tasks
  parallel_for_ends begin n_tasks schedule h = omega (
    arith,
    schedule_bound schedule (at_start begin) (pushed_tasks n_tasks) h,
    pushed_tasks-ranks n_tasks,
  )
