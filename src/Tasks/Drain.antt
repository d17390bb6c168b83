-- ===== src/Tasks/Drain.antt =====
-- `SwallowReadyTasks` of pink/src/bg_thread.cc after a stop, with other threads in between.
use pink.Base.{
  ℕ, ◌+◌, ◌*◌, ◌%◌, ◌^◌, ◌≤◌, ◌<◌, ◌≡◌, refl, sym, ap, ◌∙◌, subst, true, List, [], ◌∷◌, ◌++◌,
  Option, none, some, length, map, append-nil, ◌==◌, if-elim, arith,
}
use pink.Tasks.{
  Timer, TaskQueue, refused, ends, schedule, delay_schedule, due, queue_clear, stop, run_front,
  run_once, swallow_top, swallow_timer,
}
use pink.Tasks.Ledger.{
  task_of, Ledger, fresh, Section, schedules, delays, turns, clears, stops, swallows,
  swallows_timer, after_schedule, after_delay, after_turn, step, run, swallow_ready_tasks,
}
use pink.Tasks.Effects.{TopLaw}
use pink.Tasks.Kept.{Kept, run-Kept, step-Kept, run_from-Kept}

schedule-stopped :
    {A : Type 0} (a : A) (q : TaskQueue A) → q.stopped ≡ true → schedule a q ≡ (refused, q)
unfolding schedule
schedule-stopped a q off = ground (arith, off)

delay_schedule-stopped :
    {A : Type 0} (now timeout : ℕ) (a : A) (q : TaskQueue A)
    → q.stopped ≡ true
    → delay_schedule now timeout a q ≡ (refused, q)
unfolding delay_schedule
delay_schedule-stopped now timeout a q off = ground (arith, off)

-- Behind a stop nothing comes into the queue.
abbrev Shrinks : {A : Type 0} → Ledger A → Ledger A → Type 0
Shrinks m d =
    (d.tasks.stopped ≡ true) × (d.pushed ≡ m.pushed) × (length d.tasks.queue ≤ length m.tasks.queue)

swallow_top-Shrinks :
    {A : Type 0} (now : ℕ) (m : Ledger A) (o : Option (Timer A × List (Timer A)))
    → m.tasks.stopped ≡ true
    → Shrinks m (after_turn now m (swallow_top now m.tasks o))
unfolding swallow_top
swallow_top-Shrinks now m none off = (off, refl, omega arith)
swallow_top-Shrinks now m (some (t, rest)) off =
    if-elim (λ r. Shrinks m (after_turn now m r)) (due now t) (λ e. (off, refl, omega arith))
      (λ e. (off, refl, omega arith))

-- The first task of the queue is run.
run_front-Shrinks :
    {A : Type 0} (items : List A) (m : Ledger A)
    → m.tasks.queue ≡ items
    → m.tasks.stopped ≡ true
    → Shrinks m (after_turn 0 m (run_front items ends m.tasks))
      × (0 < length items
          → length (after_turn 0 m (run_front items ends m.tasks)).tasks.queue
            < length m.tasks.queue)
unfolding run_front
run_front-Shrinks [] m e off = ((off, refl, omega arith), λ h. absurd (omega arith))
run_front-Shrinks (a ∷ rest) m e off =
    let size = ap length e in ((off, refl, omega arith), λ h. omega arith)

module _ {A : Type 0} (top : List (Timer A) → Option (Timer A × List (Timer A))) where
  run_once-stopped : (now : ℕ) (q : TaskQueue A) → q.stopped ≡ true → run_once top now q ≡ (ends, q)
  unfolding run_once
  run_once-stopped now q off = ground (arith, off)

  step-Shrinks : (s : Section A) (m : Ledger A) → m.tasks.stopped ≡ true → Shrinks m (step top s m)
  unfolding step queue_clear stop swallow_timer
  step-Shrinks (schedules a) m off =
      subst (λ r. Shrinks m (after_schedule a m r)) (sym (schedule-stopped a m.tasks off))
        (off, refl, omega arith)
  step-Shrinks (delays now timeout a) m off =
      subst
        (λ r.
          Shrinks m
            (after_delay (record { exec_time = (now + timeout * 1000) % 2 ^ 64; task = a }) m r))
        (sym (delay_schedule-stopped now timeout a m.tasks off)) (off, refl, omega arith)
  step-Shrinks (turns now) m off =
      subst (λ r. Shrinks m (after_turn now m r)) (sym (run_once-stopped now m.tasks off))
        (off, refl, omega arith)
  step-Shrinks clears m off = (off, refl, omega arith)
  step-Shrinks stops m off = (refl, refl, omega arith)
  step-Shrinks swallows m off = (run_front-Shrinks m.tasks.queue m refl off).0
  step-Shrinks (swallows_timer now) m off = swallow_top-Shrinks now m (top m.tasks.timers) off

  run-Shrinks :
      (ss : List (Section A)) (m : Ledger A) → m.tasks.stopped ≡ true → Shrinks m (run top ss m)
  unfolding run
  run-Shrinks [] m off = (off, refl, omega arith)
  run-Shrinks (s ∷ ss) m off =
      let (off', same, fewer) = step-Shrinks s m off in
      let (off'', same', fewer') = run-Shrinks ss (step top s m) off' in
      (off'', same' ∙ same, omega arith)

  module _ (law : TopLaw top) (full : ℕ) where
    -- The loop has ended, with the queue empty.
    abbrev pub Drained : Ledger A → Option (Ledger A) → Type 0
    Drained m o =
        (d : Ledger A) × (o ≡ some d)
        × (d.tasks.queue ≡ [])
        × (d.pushed ≡ m.pushed)
        × (map task_of d.left ≡ m.pushed)

    empty-Drained : (m : Ledger A) → Kept full m → length m.tasks.queue ≡ 0 → Drained m (some m)
    empty-Drained m k e =
        let empty = nil_of m.tasks.queue e in
        (
          m,
          refl,
          empty,
          refl,
          sym (append-nil (map task_of m.left))
              ∙ ap (λ x. map task_of m.left ++ x) (sym empty)
              ∙ sym k.in_order,
        )
      where
        nil_of : (xs : List A) → length xs ≡ 0 → xs ≡ []
        nil_of [] h = refl
        nil_of (x ∷ xs) h = absurd (omega arith)

    swallow_ready_tasks-Drained :
        (others : List (List (Section A))) (m : Ledger A)
        → Kept full m
        → m.tasks.stopped ≡ true
        → length m.tasks.queue ≤ length others
        → Drained m (swallow_ready_tasks top others m)
    unfolding swallow_ready_tasks step
    swallow_ready_tasks-Drained [] m k off enough =
        if-elim (Drained m) (length m.tasks.queue == 0) (λ e. empty-Drained m k (ground arith))
          (λ e. absurd (ground arith))
    swallow_ready_tasks-Drained (meanwhile ∷ others) m k off enough =
        if-elim (Drained m) (length m.tasks.queue == 0) (λ e. empty-Drained m k (ground arith))
          (λ e.
            let (shrinks, fewer) = run_front-Shrinks m.tasks.queue m refl off in
            let less = fewer (ground arith) in
            let (off', same, no_more) = run-Shrinks meanwhile (step top swallows m) shrinks.0 in
            let (d, ended, empty, pushed, gone) =
              swallow_ready_tasks-Drained others (run top meanwhile (step top swallows m))
                (run_from-Kept top law full meanwhile (step top swallows m)
                  (step-Kept top law full swallows m k))
                off' (omega arith) in
            (d, ended, empty, pushed ∙ same ∙ shrinks.1, gone ∙ same ∙ shrinks.1))

    -- If the top of the timers is one of them and `pop` takes it away, then after any order of critical
    -- sections in which the thread was stopped, and whatever sections other threads take while
    -- `SwallowReadyTasks` runs a task without the mutex, its first loop ends after at most as many turns as
    -- there are tasks in the queue. It leaves the queue empty, nothing has been accepted meanwhile, and the
    -- tasks that have left the queue, each run once or dropped by a `QueueClear`, are then, in order, all that
    -- were ever accepted.
    pub swallow_ready_tasks-all :
        (ss : List (Section A)) (others : List (List (Section A)))
        → (run top ss (fresh full)).tasks.stopped ≡ true
        → length (run top ss (fresh full)).tasks.queue ≤ length others
        → Drained
            (run top ss (fresh full))
            (swallow_ready_tasks top others (run top ss (fresh full)))
    swallow_ready_tasks-all ss others off enough =
        swallow_ready_tasks-Drained others (run top ss (fresh full)) (run-Kept top law full ss) off
          enough
