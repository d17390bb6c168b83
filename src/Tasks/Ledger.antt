-- ===== src/Tasks/Ledger.antt =====
-- The task queue under any order of critical sections, with a ledger of the tasks that came and went.
use pink.Base.{
  ℕ, ◌+◌, ◌*◌, ◌%◌, ◌^◌, List, [], ◌∷◌, ◌++◌, Option, none, some, length, map, ◌==◌, if◌then◌else◌,
}
use pink.Tasks.{
  Timer, TaskQueue, new_queue, Scheduled, waits, accepted, refused, Turn, sleeps, ends, sleeps_for,
  fires, runs, schedule, delay_schedule, queue_clear, stop, run_front, run_once, swallow_timer,
}

-- How a task leaves the queue: it is run, or `QueueClear` drops it.
pub data Exit (A : Type 0) : Type 0 where
  ran dropped : A → Exit A

abbrev pub task_of : {A : Type 0} → Exit A → A
task_of (ran a) = a
task_of (dropped a) = a

-- A fired timer, with the time at which it was taken.
pub record Fired (A : Type 0) : Type 0 where
  pub at : ℕ
  pub timer : Timer A

pub record Ledger (A : Type 0) : Type 0 where
  pub tasks : TaskQueue A
  pub pushed : List A
  pub left : List (Exit A)
  pub delayed : List (Timer A)
  pub fired : List (Fired A)
  pub cleared : List (Timer A)

abbrev pub fresh : {A : Type 0} → ℕ → Ledger A
fresh full = record {
  tasks = new_queue full;
  pushed = [];
  left = [];
  delayed = [];
  fired = [];
  cleared = [];
}

-- A critical section, with the time it reads.
pub data Section (A : Type 0) : Type 0 where
  schedules : A → Section A
  delays : ℕ → ℕ → A → Section A
  turns : ℕ → Section A
  clears stops swallows : Section A
  swallows_timer : ℕ → Section A

abbrev pub after_schedule : {A : Type 0} → A → Ledger A → Scheduled × TaskQueue A → Ledger A
after_schedule a m (accepted, q) = record m { tasks = q; pushed = m.pushed ++ a ∷ [] }
after_schedule a m (waits, q) = record m { tasks = q }
after_schedule a m (refused, q) = record m { tasks = q }

abbrev pub after_delay : {A : Type 0} → Timer A → Ledger A → Scheduled × TaskQueue A → Ledger A
after_delay t m (accepted, q) = record m { tasks = q; delayed = t ∷ m.delayed }
after_delay t m (waits, q) = record m { tasks = q }
after_delay t m (refused, q) = record m { tasks = q }

abbrev pub after_turn : {A : Type 0} → ℕ → Ledger A → Turn A × TaskQueue A → Ledger A
after_turn now m (fires t, q) = record m {
  tasks = q;
  fired = record { at = now; timer = t } ∷ m.fired;
}
after_turn now m (runs a, q) = record m { tasks = q; left = m.left ++ ran a ∷ [] }
after_turn now m (sleeps, q) = record m { tasks = q }
after_turn now m (ends, q) = record m { tasks = q }
after_turn now m (sleeps_for n, q) = record m { tasks = q }

module _ {A : Type 0} (top : List (Timer A) → Option (Timer A × List (Timer A))) where
  unfoldable pub step : Section A → Ledger A → Ledger A
  step (schedules a) m = after_schedule a m (schedule a m.tasks)
  step (delays now timeout a) m =
      after_delay (record { exec_time = (now + timeout * 1000) % 2 ^ 64; task = a }) m
        (delay_schedule now timeout a m.tasks)
  step (turns now) m = after_turn now m (run_once top now m.tasks)
  step clears m = record m {
    tasks = queue_clear m.tasks;
    left = m.left ++ map dropped m.tasks.queue;
    cleared = m.tasks.timers ++ m.cleared;
  }
  step stops m = record m { tasks = stop m.tasks }
  step swallows m = after_turn 0 m (run_front m.tasks.queue ends m.tasks)
  step (swallows_timer now) m = after_turn now m (swallow_timer top now m.tasks)

  unfoldable pub run : List (Section A) → Ledger A → Ledger A
  run [] m = m
  run (s ∷ ss) m = run ss (step s m)

  -- The first loop of `SwallowReadyTasks`. It does not hold `mu_` while a task runs: `others` lists, for each
  -- turn of the loop, the critical sections of the other threads in this time, and none is a loop that is
  -- still going when the list is at its end.
  unfoldable pub swallow_ready_tasks : List (List (Section A)) → Ledger A → Option (Ledger A)
  swallow_ready_tasks [] m = if length m.tasks.queue == 0 then some m else none
  swallow_ready_tasks (meanwhile ∷ others) m =
      let rest = swallow_ready_tasks others (run meanwhile (step swallows m)) in
      if length m.tasks.queue == 0 then some m else rest
