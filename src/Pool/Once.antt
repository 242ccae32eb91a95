-- ===== src/Pool/Once.antt =====
-- No index is worked on twice.
use rf_class_groups.Base.{
  ℕ, zero, suc, ◌+◌, ◌≤◌, ◌≡◌, min, ltb, leb, inl, inr, refl, Bool, true, false, Bool-cases, ◌==◌,
  ◌&&◌, if◌then◌else◌, List, [], ◌∷◌, arith,
}
use rf_class_groups.Pool.{
  Task, ready, claiming, leaving, finished, working, Shared, advance, move_of, run_schedule,
  at_start, pushed_tasks, parallel_for,
}

-- 1 where `i` is in the range from `a` to before `b`, else 0.
abbrev pub in_range : ℕ → ℕ → ℕ → ℕ
in_range a b i = if leb a i && ltb i b then 1 else 0

-- How often a number is in a list.
abbrev pub occurrences : ℕ → List ℕ → ℕ
occurrences i [] = 0
occurrences i (x ∷ xs) = (if x == i then 1 else 0) + occurrences i xs

-- What a task still holds of an index.
abbrev pub held : ℕ → Task → ℕ
held i (working a b) = in_range a b i
held i _ = 0

abbrev pub all_held : ℕ → List Task → ℕ
all_held i [] = 0
all_held i (t ∷ tasks) = held i t + all_held i tasks

module _ (end chunk_size : ℕ) (throws : ℕ → Bool) (i : ℕ) where
  -- The calls with an index, and whether it is still to be claimed.
  abbrev pub shares : Shared → ℕ
  shares s = occurrences i s.called + in_range s.cursor end i

  pub split_range :
      (c : ℕ)
      → leb end c ≡ false
      → in_range (c + chunk_size) end i + in_range c (min (c + chunk_size) end) i ≡ in_range c end i
  split_range c h = ground arith

  pub past_range : (c : ℕ) → leb end c ≡ true → in_range (c + chunk_size) end i ≡ 0
  past_range c h = ground arith

  pub called_range :
      (j stop : ℕ)
      → ltb j stop ≡ true
      → (if j == i then 1 else 0) + in_range (suc j) stop i ≡ in_range j stop i
  called_range j stop h = ground arith

  advance-shares :
      (s : Shared) (t : Task)
      → shares (advance end chunk_size throws s t).0 + held i (advance end chunk_size throws s t).1
        ≤ shares s + held i t
  unfolding advance
  advance-shares s ready = elim (Bool-cases s.has_exception) [
    | inl e ↦ rw e (omega arith)
    | inr e ↦ rw e (omega arith)
  ]
  advance-shares s claiming = elim (Bool-cases (leb end s.cursor)) [
    | inl e ↦ rw e (omega (arith, past_range s.cursor e))
    | inr e ↦ rw e (omega (arith, split_range s.cursor e))
  ]
  advance-shares s (working j stop) = elim (Bool-cases (ltb j stop)) [
    | inl e ↦ elim (Bool-cases (throws j)) [
      | inl f ↦ rw (e, f) (omega (arith, called_range j stop e))
      | inr f ↦ rw (e, f) (omega (arith, called_range j stop e))
    ]
    | inr e ↦ rw e (omega arith)
  ]
  advance-shares s leaving = omega arith
  advance-shares s finished = omega arith

  move_of-shares :
      (k : ℕ) (s : Shared) (tasks : List Task)
      → shares (move_of end chunk_size throws k s tasks).0
          + all_held i (move_of end chunk_size throws k s tasks).1
        ≤ shares s + all_held i tasks
  unfolding move_of
  move_of-shares k s [] = omega arith
  move_of-shares zero s (t ∷ tasks) = omega (arith, advance-shares s t)
  move_of-shares (suc k) s (t ∷ tasks) = omega (arith, move_of-shares k s tasks)

  pub run_schedule-shares :
      (schedule : List ℕ) (s : Shared) (tasks : List Task)
      → shares (run_schedule end chunk_size throws schedule s tasks).0
          + all_held i (run_schedule end chunk_size throws schedule s tasks).1
        ≤ shares s + all_held i tasks
  unfolding run_schedule
  run_schedule-shares [] s tasks = omega arith
  run_schedule-shares (k ∷ schedule) s tasks =
      let r = move_of end chunk_size throws k s tasks in
      omega (arith, move_of-shares k s tasks, run_schedule-shares schedule r.0 r.1)

  pub pushed_tasks-held : (n_tasks : ℕ) → all_held i (pushed_tasks n_tasks) ≡ 0
  pushed_tasks-held zero = refl
  pushed_tasks-held (suc n_tasks) = omega (arith, pushed_tasks-held n_tasks)

  -- However the atomic moves of the tasks interleave, and whether `fn` throws or not, `fn` is called at
  -- most once with each index from `begin` to before `end`, and never with another.
  pub parallel_for-at_most_once :
      (begin n_tasks : ℕ) (schedule : List ℕ)
      → occurrences i (parallel_for begin end chunk_size throws n_tasks schedule).0.called
        ≤ in_range begin end i
  unfolding parallel_for
  parallel_for-at_most_once begin n_tasks schedule = omega (
    arith,
    run_schedule-shares schedule (at_start begin) (pushed_tasks n_tasks),
    pushed_tasks-held n_tasks,
  )
