-- ===== src/Pool.antt =====
-- CGThreadPool::parallel_for of cg_thread_pool.hpp: the tasks that share one cursor, in any order of
-- their atomic moves.
pub mod Once
pub mod Complete
pub mod Bounded
use rf_class_groups.Base.{
  ℕ, zero, suc, ◌+◌, ◌-◌, min, ltb, leb, Bool, true, false, if◌then◌else◌, List, [], ◌∷◌,
}

-- Where a task stands: at the top of its loop, before its claim, inside a claimed range, behind the
-- loop, or counted as done.
pub data Task : Type 0 where
  ready claiming leaving finished : Task
  working : ℕ → ℕ → Task

-- What the tasks share; `called` are the indices that `fn` was called with, the last one first.
pub record Shared : Type 0 where
  pub cursor : ℕ
  pub has_exception : Bool
  pub done_count : ℕ
  pub called : List ℕ

-- A call of `fn` with an index.
abbrev pub called_with : Shared → Bool → ℕ → Shared
called_with s thrown i = record {
  cursor = s.cursor;
  has_exception = if thrown then true else s.has_exception;
  done_count = s.done_count;
  called = i ∷ s.called;
}

-- `cursor.fetch_add(chunk_size)`, below 2^64.
abbrev pub fetched : Shared → ℕ → Shared
fetched s chunk_size = record {
  cursor = s.cursor + chunk_size;
  has_exception = s.has_exception;
  done_count = s.done_count;
  called = s.called;
}

-- `done_count.fetch_add(1)`.
abbrev pub counted : Shared → Shared
counted s = record {
  cursor = s.cursor;
  has_exception = s.has_exception;
  done_count = suc s.done_count;
  called = s.called;
}

-- `fn` throws at the indices that `throws` names.
module _ (end chunk_size : ℕ) (throws : ℕ → Bool) where
  -- One atomic move of a task.
  unfoldable pub advance : Shared → Task → Shared × Task
  advance s ready = (s, if s.has_exception then leaving else claiming)
  advance s claiming = (
    fetched s chunk_size,
    if leb end s.cursor then leaving else working s.cursor (min (s.cursor + chunk_size) end),
  )
  advance s (working i stop) =
      if ltb i stop
      then (called_with s (throws i) i, if throws i then leaving else working (suc i) stop)
      else (s, ready)
  advance s leaving = (counted s, finished)
  advance s finished = (s, finished)

  -- The move of the task at an index; there is none outside.
  unfoldable pub move_of : ℕ → Shared → List Task → Shared × List Task
  move_of k s [] = (s, [])
  move_of zero s (t ∷ tasks) = let r = advance s t in (r.0, r.1 ∷ tasks)
  move_of (suc k) s (t ∷ tasks) = let r = move_of k s tasks in (r.0, t ∷ r.1)

  -- The moves of a schedule, one after the other.
  unfoldable pub run_schedule : List ℕ → Shared → List Task → Shared × List Task
  run_schedule [] s tasks = (s, tasks)
  run_schedule (k ∷ schedule) s tasks = let r = move_of k s tasks in run_schedule schedule r.0 r.1

-- The state before a call's tasks run.
abbrev pub at_start : ℕ → Shared
at_start begin = record { cursor = begin; has_exception = false; done_count = 0; called = [] }

-- The `n_tasks` copies of the task.
abbrev pub pushed_tasks : ℕ → List Task
pushed_tasks zero = []
pushed_tasks (suc n_tasks) = ready ∷ pushed_tasks n_tasks

-- What `parallel_for(begin, end, fn, chunk_size)` leaves under a schedule.
unfoldable pub parallel_for : ℕ → ℕ → ℕ → (ℕ → Bool) → ℕ → List ℕ → Shared × List Task
parallel_for begin end chunk_size throws n_tasks schedule =
    run_schedule end chunk_size throws schedule (at_start begin) (pushed_tasks n_tasks)
