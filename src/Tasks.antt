-- ===== src/Tasks.antt =====
-- pink/src/bg_thread.cc: `BGThread`, and pink/src/thread_pool.cc: `TaskQueue`, whose `full` is QUEUE_CAP.
-- A function here is what one thread does while it holds `mu_`; the order in which threads get it is a list.
use pink.Base.{
  ℕ, zero, suc, ◌+◌, ◌-◌, ◌*◌, ◌/◌, ◌%◌, ◌^◌, Bool, true, false, not, ◌&&◌, List, [], ◌∷◌, ◌++◌,
  Option, none, some, ltb, leb, if◌then◌else◌, length, map,
}
pub mod Ledger
pub mod Effects
pub mod Kept
pub mod Drain
mod Tests

-- `TimerItem` and `TimeTask`: the time is in microseconds. A task is a function with its argument.
pub record Timer (A : Type 0) : Type 0 where
  pub exec_time : ℕ
  pub task : A

pub record TaskQueue (A : Type 0) : Type 0 where
  pub queue : List A
  pub timers : List (Timer A)
  pub full : ℕ
  pub stopped : Bool

abbrev pub queue_cap : ℕ
queue_cap = 63

abbrev pub new_queue : {A : Type 0} → ℕ → TaskQueue A
new_queue full = record { queue = []; timers = []; full = full; stopped = false }

-- What `Schedule` comes to: it waits on `wsignal_`, or the task is in the queue, or it is not, after a stop.
pub data Scheduled : Type 0 where
  waits accepted refused : Scheduled

-- What a turn of the thread comes to: it waits on `rsignal_`, for ever or for some milliseconds, or ends, or
-- runs a task, that of a timer or of the queue.
pub data Turn (A : Type 0) : Type 0 where
  sleeps ends : Turn A
  sleeps_for : ℕ → Turn A
  fires : Timer A → Turn A
  runs : A → Turn A

unfoldable pub schedule : {A : Type 0} → A → TaskQueue A → Scheduled × TaskQueue A
schedule a q =
    if leb q.full (length q.queue) && not q.stopped
    then (waits, q)
    else (if not q.stopped
        then (accepted, record q { queue = q.queue ++ a ∷ [] })
        else (refused, q))

-- `now` is the result of `gettimeofday`, in microseconds.
unfoldable pub delay_schedule : {A : Type 0} → ℕ → ℕ → A → TaskQueue A → Scheduled × TaskQueue A
delay_schedule now timeout a q =
    if not q.stopped
    then (
      accepted,
      record q {
        timers = record { exec_time = (now + timeout * 1000) % 2 ^ 64; task = a } ∷ q.timers;
      },
    )
    else (refused, q)

-- `if (unow / 1000 >= exec_time / 1000)`.
abbrev pub due : {A : Type 0} → ℕ → Timer A → Bool
due now t = leb (t.exec_time / 1000) (now / 1000)

unfoldable pub queue_clear : {A : Type 0} → TaskQueue A → TaskQueue A
queue_clear q = record q { queue = []; timers = [] }

unfoldable pub stop : {A : Type 0} → TaskQueue A → TaskQueue A
stop q = record q { stopped = true }

-- The turn on the queue, where no timer is due: the front is taken, or the thread waits.
unfoldable pub run_front : {A : Type 0} → List A → Turn A → TaskQueue A → Turn A × TaskQueue A
run_front [] otherwise q = (otherwise, q)
run_front (a ∷ rest) otherwise q = (runs a, record q { queue = rest })

-- The turn on the top of the timers and the others.
unfoldable pub run_top :
    {A : Type 0} → ℕ → TaskQueue A → Option (Timer A × List (Timer A)) → Turn A × TaskQueue A
run_top now q none = run_front q.queue sleeps q
run_top now q (some (t, rest)) =
    if due now t
    then (fires t, record q { timers = rest })
    else run_front q.queue (sleeps_for ((t.exec_time - now) / 1000 % 2 ^ 32)) q

unfoldable pub swallow_top :
    {A : Type 0} → ℕ → TaskQueue A → Option (Timer A × List (Timer A)) → Turn A × TaskQueue A
swallow_top now q none = (ends, q)
swallow_top now q (some (t, rest)) =
    if due now t then (fires t, record q { timers = rest }) else (ends, q)

-- `std::priority_queue` is a parameter: the top of its items and the others.
module _ {A : Type 0} (top : List (Timer A) → Option (Timer A × List (Timer A))) where
  -- One round of `ThreadMain`, and `RunOnce`.
  unfoldable pub run_once : ℕ → TaskQueue A → Turn A × TaskQueue A
  run_once now q = if q.stopped then (ends, q) else run_top now q (top q.timers)

  -- A round of the second loop of `SwallowReadyTasks`; the first one takes `run_front`.
  unfoldable pub swallow_timer : ℕ → TaskQueue A → Turn A × TaskQueue A
  swallow_timer now q = swallow_top now q (top q.timers)
