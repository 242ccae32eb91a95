-- ===== src/Examples/Threads.antt =====
-- The thread pool at concrete inputs: two tasks that share the indices 2, 3 and 4.
use rf_class_groups.Base.{
  ℕ, ◌+◌, ◌*◌, ◌-◌, ◌≤◌, ◌≡◌, refl, Bool, false, List, [], ◌∷◌, length, arith,
}
use rf_class_groups.Pool.{move_of, run_schedule, advance, at_start, pushed_tasks, parallel_for}
use rf_class_groups.Pool.Once.{in_range, occurrences}
use rf_class_groups.Pool.Complete.{AllFinished, parallel_for-each_once}
use rf_class_groups.Pool.Bounded.{IsActive, parallel_for_ends}

abbrev never : ℕ → Bool
never j = false

-- The first task takes index 2 and both go on in turns.
abbrev turns : List ℕ
turns = 0 ∷ 0 ∷ 1 ∷ 1 ∷ 1 ∷ 0 ∷ 0 ∷ 1 ∷ 0 ∷ 0 ∷ 0 ∷ 1 ∷ 1 ∷ 0 ∷ 0 ∷ 0 ∷ 0 ∷ 1 ∷ []

turns-AllFinished : AllFinished (parallel_for 2 5 1 never 2 turns).1
unfolding parallel_for run_schedule move_of advance
turns-AllFinished = tt

turns-IsActive : IsActive 5 1 never (omega arith) turns (at_start 2) (pushed_tasks 2)
unfolding move_of advance
turns-IsActive = (
  refl,
  (
    refl,
    (
      refl,
      (
        refl,
        (
          refl,
          (
            refl,
            (
              refl,
              (
                refl,
                (refl, (refl, (refl, (refl, (refl, (refl, (refl, (refl, (refl, (refl, tt)))))))))),
              ),
            ),
          ),
        ),
      ),
    ),
  ),
)

parallel_for-each_once_example :
    occurrences 4 (parallel_for 2 5 1 never 2 turns).0.called ≡ in_range 2 5 4
parallel_for-each_once_example =
    parallel_for-each_once 5 1 never (λ j. refl) 4 2 2 turns (omega arith) turns-AllFinished

parallel_for_ends_example : length turns ≤ 4 * (5 - 2) + 3 * 2
parallel_for_ends_example = parallel_for_ends 5 1 never (omega arith) 2 2 turns turns-IsActive
