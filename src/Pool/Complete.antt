-- ===== src/Pool/Complete.antt =====
-- When all tasks have finished, every index has been worked on.
use rf_class_groups.Base.{
  ℕ, zero, suc, ◌+◌, ◌≤◌, ◌≡◌, ltb, leb, inl, inr, refl, Bool, true, false, Bool-cases, List, [],
  ◌∷◌, length, arith,
}
use rf_class_groups.Pool.{
  Task, ready, claiming, leaving, finished, working, Shared, advance, move_of, run_schedule,
  at_start, pushed_tasks, parallel_for,
}
use rf_class_groups.Pool.Once.{
  in_range, occurrences, held, all_held, split_range, called_range, parallel_for-at_most_once,
}

-- A task behind its loop has seen the cursor at the end.
abbrev Behind : ℕ → ℕ → Task → Type 0
Behind end cursor leaving = end ≤ cursor
Behind end cursor finished = end ≤ cursor
Behind end cursor _ = Unit {0}

abbrev AllBehind : ℕ → ℕ → List Task → Type 0
AllBehind end cursor [] = Unit {0}
AllBehind end cursor (t ∷ tasks) = Behind end cursor t × AllBehind end cursor tasks

Behind-later : (end c d : ℕ) (t : Task) → c ≤ d → Behind end c t → Behind end d t
Behind-later end c d ready l h = tt
Behind-later end c d claiming l h = tt
Behind-later end c d leaving l h = omega arith
Behind-later end c d finished l h = omega arith
Behind-later end c d (working i stop) l h = tt

AllBehind-later :
    (end c d : ℕ) (tasks : List Task) → c ≤ d → AllBehind end c tasks → AllBehind end d tasks
AllBehind-later end c d [] l h = tt
AllBehind-later end c d (t ∷ tasks) l (h, hs) =
    (Behind-later end c d t l h, AllBehind-later end c d tasks l hs)

-- Every task has been counted.
abbrev pub AllFinished : List Task → Type 0
AllFinished [] = Unit {0}
AllFinished (finished ∷ tasks) = AllFinished tasks
AllFinished (_ ∷ tasks) = ⊥

module _ (end chunk_size : ℕ) (throws : ℕ → Bool) (quiet : (j : ℕ) → throws j ≡ false) (i : ℕ) where
  abbrev shares : Shared → ℕ
  shares s = occurrences i s.called + in_range s.cursor end i

  -- What a move keeps: no exception, the cursor does not fall, and no index is lost.
  abbrev Kept : Shared → ℕ → Shared → ℕ → Type 0
  Kept s n s' n' =
      (s'.has_exception ≡ false) × (s.cursor ≤ s'.cursor) × (shares s + n ≤ shares s' + n')

  at_end : (c : ℕ) → leb end c ≡ true → end ≤ c + chunk_size
  at_end c h = ground arith

  advance-Kept :
      (s : Shared) (t : Task)
      → s.has_exception ≡ false
      → Behind end s.cursor t
      → Kept s
          (held i t)
          (advance end chunk_size throws s t).0
          (held i (advance end chunk_size throws s t).1)
        × Behind end
            (advance end chunk_size throws s t).0.cursor
            (advance end chunk_size throws s t).1
  unfolding advance
  advance-Kept s ready e h = rw e ((refl, omega arith, omega arith), tt)
  advance-Kept s claiming e h = elim (Bool-cases (leb end s.cursor)) [
    | inl f ↦ rw f ((e, omega arith, omega (arith, nothing s.cursor f)), at_end s.cursor f)
    | inr f ↦
        rw f ((e, omega arith, omega (arith, split_range end chunk_size throws i s.cursor f)), tt)
  ]
    where
      nothing : (c : ℕ) → leb end c ≡ true → in_range c end i ≡ 0
      nothing c h = ground arith
  advance-Kept s (working j stop) e h = elim (Bool-cases (ltb j stop)) [
    | inl f ↦
        rw (f, quiet j, e)
          ((refl, omega arith, omega (arith, called_range end chunk_size throws i j stop f)), tt)
    | inr f ↦ rw f ((e, omega arith, omega (arith, over j stop f)), tt)
  ]
    where
      over : (a b : ℕ) → ltb a b ≡ false → in_range a b i ≡ 0
      over a b h = ground arith
  advance-Kept s leaving e h = ((e, omega arith, omega arith), h)
  advance-Kept s finished e h = ((e, omega arith, omega arith), h)

  move_of-Kept :
      (k : ℕ) (s : Shared) (tasks : List Task)
      → s.has_exception ≡ false
      → AllBehind end s.cursor tasks
      → Kept s
          (all_held i tasks)
          (move_of end chunk_size throws k s tasks).0
          (all_held i (move_of end chunk_size throws k s tasks).1)
        × AllBehind end
            (move_of end chunk_size throws k s tasks).0.cursor
            (move_of end chunk_size throws k s tasks).1
  unfolding move_of
  move_of-Kept k s [] e h = ((e, omega arith, omega arith), tt)
  move_of-Kept zero s (t ∷ tasks) e (h, hs) =
      let (kept, behind) = advance-Kept s t e h in
      (
        (kept.0, kept.1, omega (arith, kept.2)),
        (behind, AllBehind-later end s.cursor _ tasks kept.1 hs),
      )
  move_of-Kept (suc k) s (t ∷ tasks) e (h, hs) =
      let (kept, behind) = move_of-Kept k s tasks e hs in
      ((kept.0, kept.1, omega (arith, kept.2)), (Behind-later end s.cursor _ t kept.1 h, behind))

  run_schedule-Kept :
      (schedule : List ℕ) (s : Shared) (tasks : List Task)
      → s.has_exception ≡ false
      → AllBehind end s.cursor tasks
      → Kept s
          (all_held i tasks)
          (run_schedule end chunk_size throws schedule s tasks).0
          (all_held i (run_schedule end chunk_size throws schedule s tasks).1)
        × AllBehind end
            (run_schedule end chunk_size throws schedule s tasks).0.cursor
            (run_schedule end chunk_size throws schedule s tasks).1
  unfolding run_schedule
  run_schedule-Kept [] s tasks e h = ((e, omega arith, omega arith), h)
  run_schedule-Kept (k ∷ schedule) s tasks e h =
      let r = move_of end chunk_size throws k s tasks in
      let (kept, behind) = move_of-Kept k s tasks e h in
      let (kept', behind') = run_schedule-Kept schedule r.0 r.1 kept.0 behind in
      ((kept'.0, omega (arith, kept.1, kept'.1), omega (arith, kept.2, kept'.2)), behind')

  move_of-length :
      (k : ℕ) (s : Shared) (tasks : List Task)
      → length (move_of end chunk_size throws k s tasks).1 ≡ length tasks
  unfolding move_of
  move_of-length k s [] = refl
  move_of-length zero s (t ∷ tasks) = refl
  move_of-length (suc k) s (t ∷ tasks) = omega (arith, move_of-length k s tasks)

  run_schedule-length :
      (schedule : List ℕ) (s : Shared) (tasks : List Task)
      → length (run_schedule end chunk_size throws schedule s tasks).1 ≡ length tasks
  unfolding run_schedule
  run_schedule-length [] s tasks = refl
  run_schedule-length (k ∷ schedule) s tasks =
      let r = move_of end chunk_size throws k s tasks in
      omega (arith, run_schedule-length schedule r.0 r.1, move_of-length k s tasks)

  pushed_tasks-Behind : (begin n_tasks : ℕ) → AllBehind end begin (pushed_tasks n_tasks)
  pushed_tasks-Behind begin zero = tt
  pushed_tasks-Behind begin (suc n_tasks) = (tt, pushed_tasks-Behind begin n_tasks)

  length-pushed_tasks : (n_tasks : ℕ) → length (pushed_tasks n_tasks) ≡ n_tasks
  length-pushed_tasks zero = refl
  length-pushed_tasks (suc n_tasks) = omega (arith, length-pushed_tasks n_tasks)

  past_end : (c : ℕ) → end ≤ c → in_range c end i ≡ 0
  past_end c h = ground arith

  AllFinished-held : (tasks : List Task) → AllFinished tasks → all_held i tasks ≡ 0
  AllFinished-held [] h = refl
  AllFinished-held (finished ∷ tasks) h = omega (arith, AllFinished-held tasks h)
  AllFinished-held (ready ∷ tasks) h = absurd h
  AllFinished-held (claiming ∷ tasks) h = absurd h
  AllFinished-held (leaving ∷ tasks) h = absurd h
  AllFinished-held (working a b ∷ tasks) h = absurd h

  AllFinished-end :
      (cursor : ℕ) (tasks : List Task)
      → AllFinished tasks
      → AllBehind end cursor tasks
      → 1 ≤ length tasks
      → end ≤ cursor
  AllFinished-end cursor [] h k l = absurd (omega arith)
  AllFinished-end cursor (finished ∷ tasks) h k l = k.0
  AllFinished-end cursor (ready ∷ tasks) h k l = absurd h
  AllFinished-end cursor (claiming ∷ tasks) h k l = absurd h
  AllFinished-end cursor (leaving ∷ tasks) h k l = absurd h
  AllFinished-end cursor (working a b ∷ tasks) h k l = absurd h

  -- Where `fn` does not throw and there is at least one task: under every schedule after which all
  -- tasks have finished, `fn` was called exactly once with each index from `begin` to before `end`, and
  -- with no other.
  pub parallel_for-each_once :
      (begin n_tasks : ℕ) (schedule : List ℕ)
      → 1 ≤ n_tasks
      → AllFinished (parallel_for begin end chunk_size throws n_tasks schedule).1
      → occurrences i (parallel_for begin end chunk_size throws n_tasks schedule).0.called
        ≡ in_range begin end i
  unfolding parallel_for
  parallel_for-each_once begin n_tasks schedule l h =
      let final =
        run_schedule end chunk_size throws schedule (at_start begin) (pushed_tasks n_tasks) in
      let (kept, behind) =
        run_schedule-Kept schedule (at_start begin) (pushed_tasks n_tasks) refl
          (pushed_tasks-Behind begin n_tasks) in
      let many : 1 ≤ length final.1 = omega (
        arith,
        run_schedule-length schedule (at_start begin) (pushed_tasks n_tasks),
        length-pushed_tasks n_tasks,
      ) in
      omega (
        arith,
        kept.2,
        AllFinished-held final.1 h,
        past_end final.0.cursor (AllFinished-end final.0.cursor final.1 h behind many),
        at_most begin n_tasks schedule,
      )
    where
      at_most :
          (begin n_tasks : ℕ) (schedule : List ℕ)
          → occurrences i
              (run_schedule end chunk_size throws schedule
                (at_start begin)
                (pushed_tasks n_tasks)).0.called
            ≤ in_range begin end i
      at_most begin n_tasks schedule =
          unfold parallel_for in
          parallel_for-at_most_once end chunk_size throws i begin n_tasks schedule
