-- ===== src/Tasks/Kept.antt =====
-- What any order of critical sections keeps, in pink/src/bg_thread.cc and pink/src/thread_pool.cc.
use pink.Base.{
  ℕ, ◌+◌, ◌*◌, ◌/◌, ◌%◌, ◌^◌, ◌≤◌, ◌≡◌, refl, sym, ap, ◌∙◌, Bool, List, [], ◌∷◌, ◌++◌, Option,
  length, length-append, map, arith, append_assoc, append-nil, subst,
}
use pink.Tasks.{
  Timer, TaskQueue, Scheduled, waits, accepted, refused, Turn, sleeps, ends, sleeps_for, fires,
  runs, schedule, delay_schedule, queue_clear, stop, run_front, run_once, swallow_timer,
}
use pink.Tasks.Ledger.{
  Exit, ran, dropped, task_of, Fired, Ledger, fresh, Section, schedules, delays, turns, clears,
  stops, swallows, swallows_timer, after_schedule, after_delay, after_turn, step, run,
}
use pink.Tasks.Effects.{
  count, TopLaw, ScheduleOk, DelayOk, TurnOk, schedule-ScheduleOk, delay_schedule-DelayOk,
  run_front-TurnOk, run_once-TurnOk, swallow_timer-TurnOk,
}

abbrev pub OnTime : {A : Type 0} → List (Fired A) → Type 0
OnTime [] = Unit
OnTime (f ∷ fs) = (f.timer.exec_time / 1000 ≤ f.at / 1000) × OnTime fs

abbrev pub timers_of : {A : Type 0} → List (Fired A) → List (Timer A)
timers_of fs = map (λ f. f.timer) fs

-- The ledger and the queue agree.
pub record Kept {A : Type 0} (full : ℕ) (m : Ledger A) : Type 0 where
  pub in_order : m.pushed ≡ map task_of m.left ++ m.tasks.queue
  pub bounded : length m.tasks.queue ≤ full
  pub limit : m.tasks.full ≡ full
  pub all_timers :
      (p : Timer A → Bool)
      → count p m.delayed ≡ count p (timers_of m.fired) + count p m.cleared + count p m.tasks.timers
  pub on_time : OnTime m.fired

module _ {A : Type 0} where
  count-append :
      (p : Timer A → Bool) (xs ys : List (Timer A)) → count p (xs ++ ys) ≡ count p xs + count p ys
  count-append p [] ys = omega arith
  count-append p (x ∷ xs) ys = omega (arith, count-append p xs ys)

  task_of-map : (xs : List A) → map task_of (map dropped xs) ≡ xs
  task_of-map [] = refl
  task_of-map (x ∷ xs) = ap (λ y. x ∷ y) (task_of-map xs)

  pub map-append :
      (xs ys : List (Exit A)) → map task_of (xs ++ ys) ≡ map task_of xs ++ map task_of ys
  map-append [] ys = refl
  map-append (x ∷ xs) ys = ap (λ y. task_of x ∷ y) (map-append xs ys)

module _ {A : Type 0} (full : ℕ) where
  same-Kept :
      (m : Ledger A) (q : TaskQueue A)
      → q ≡ m.tasks
      → Kept full m
      → Kept full (record m { tasks = q })
  same-Kept m q e k = subst (λ x. Kept full (record m { tasks = x })) (sym e) k

  after_schedule-Kept :
      (a : A) (m : Ledger A)
      → Kept full m
      → (r : Scheduled × TaskQueue A) → ScheduleOk a m.tasks r
      → Kept full (after_schedule a m r)
  after_schedule-Kept a m k (waits, q) e = same-Kept m q e k
  after_schedule-Kept a m k (refused, q) e = same-Kept m q e k
  after_schedule-Kept a m k (accepted, q) (items, room, timers, same) = record {
    in_order =
        ap (λ x. x ++ a ∷ []) k.in_order
        ∙ append_assoc (map task_of m.left) m.tasks.queue (a ∷ [])
        ∙ ap (λ x. map task_of m.left ++ x) (sym items);
    bounded =
        let size = ap length items in
        let more = length-append m.tasks.queue (a ∷ []) in let limit = k.limit in omega arith;
    limit = same ∙ k.limit;
    all_timers = λ p.
        k.all_timers p
        ∙ ap (λ x. count p (timers_of m.fired) + count p m.cleared + count p x) (sym timers);
    on_time = k.on_time;
  }

  after_delay-Kept :
      (t : Timer A) (m : Ledger A)
      → Kept full m
      → (r : Scheduled × TaskQueue A) → DelayOk t m.tasks r
      → Kept full (after_delay t m r)
  after_delay-Kept t m k (waits, q) e = same-Kept m q e k
  after_delay-Kept t m k (refused, q) e = same-Kept m q e k
  after_delay-Kept t m k (accepted, q) (items, timers, same) = record {
    in_order = k.in_order ∙ ap (λ x. map task_of m.left ++ x) (sym items);
    bounded = subst (λ x. length x ≤ full) (sym items) k.bounded;
    limit = same ∙ k.limit;
    all_timers = λ p. let before = k.all_timers p in let now = ap (count p) timers in omega arith;
    on_time = k.on_time;
  }

  after_turn-Kept :
      (now : ℕ) (m : Ledger A)
      → Kept full m
      → (r : Turn A × TaskQueue A) → TurnOk now m.tasks r
      → Kept full (after_turn now m r)
  after_turn-Kept now m k (sleeps, q) e = same-Kept m q e k
  after_turn-Kept now m k (ends, q) e = same-Kept m q e k
  after_turn-Kept now m k (sleeps_for n, q) e = same-Kept m q e k
  after_turn-Kept now m k (runs a, q) (items, timers, same) = record {
    in_order =
        k.in_order
        ∙ ap (λ x. map task_of m.left ++ x) items
        ∙ sym (append_assoc (map task_of m.left) (a ∷ []) q.queue)
        ∙ ap (λ x. x ++ q.queue) (sym (map-append m.left (ran a ∷ [])));
    bounded = let size = ap length items in let room = k.bounded in omega arith;
    limit = same ∙ k.limit;
    all_timers = λ p.
        k.all_timers p
        ∙ ap (λ x. count p (timers_of m.fired) + count p m.cleared + count p x) (sym timers);
    on_time = k.on_time;
  }
  after_turn-Kept now m k (fires t, q) (items, same, counts, ready) = record {
    in_order = k.in_order ∙ ap (λ x. map task_of m.left ++ x) (sym items);
    bounded = subst (λ x. length x ≤ full) (sym items) k.bounded;
    limit = same ∙ k.limit;
    all_timers = λ p. let before = k.all_timers p in let after = counts p in omega arith;
    on_time = (ready, k.on_time);
  }

  clears-Kept :
      (m : Ledger A)
      → Kept full m
      → Kept full (record m {
        tasks = queue_clear m.tasks;
        left = m.left ++ map dropped m.tasks.queue;
        cleared = m.tasks.timers ++ m.cleared;
      })
  unfolding queue_clear
  clears-Kept m k = record {
    in_order =
        k.in_order
        ∙ ap (λ x. map task_of m.left ++ x) (sym (task_of-map m.tasks.queue))
        ∙ sym (map-append m.left (map dropped m.tasks.queue))
        ∙ sym (append-nil (map task_of (m.left ++ map dropped m.tasks.queue)));
    bounded = omega arith;
    limit = k.limit;
    all_timers = λ p.
        let before = k.all_timers p in
        let both = count-append p m.tasks.timers m.cleared in omega arith;
    on_time = k.on_time;
  }

module _ {A : Type 0} (top : List (Timer A) → Option (Timer A × List (Timer A))) (law : TopLaw top)
    (full : ℕ) where
  pub step-Kept : (s : Section A) (m : Ledger A) → Kept full m → Kept full (step top s m)
  unfolding step stop
  step-Kept (schedules a) m k =
      after_schedule-Kept full a m k (schedule a m.tasks) (schedule-ScheduleOk a m.tasks)
  step-Kept (delays now timeout a) m k =
      after_delay-Kept full (record { exec_time = (now + timeout * 1000) % 2 ^ 64; task = a }) m k
        (delay_schedule now timeout a m.tasks) (delay_schedule-DelayOk now timeout a m.tasks)
  step-Kept (turns now) m k =
      after_turn-Kept full now m k (run_once top now m.tasks) (run_once-TurnOk top law now m.tasks)
  step-Kept clears m k = clears-Kept full m k
  step-Kept stops m k = record {
    in_order = k.in_order;
    bounded = k.bounded;
    limit = k.limit;
    all_timers = k.all_timers;
    on_time = k.on_time;
  }
  step-Kept swallows m k =
      after_turn-Kept full 0 m k (run_front m.tasks.queue ends m.tasks)
        (run_front-TurnOk 0 m.tasks.queue ends m.tasks refl refl)
  step-Kept (swallows_timer now) m k =
      after_turn-Kept full now m k (swallow_timer top now m.tasks)
        (swallow_timer-TurnOk top law now m.tasks)

  pub run_from-Kept :
      (ss : List (Section A)) (m : Ledger A) → Kept full m → Kept full (run top ss m)
  unfolding run
  run_from-Kept [] m k = k
  run_from-Kept (s ∷ ss) m k = run_from-Kept ss (step top s m) (step-Kept s m k)

  -- If the top of the timers is one of them and `pop` takes it away, then whatever the order in
  -- which threads schedule, delay, take turns, clear, stop and swallow: the queue never has more
  -- than `full` tasks; the tasks that `Schedule` accepted are, in their order, those that have left
  -- the queue, each run once or dropped by `QueueClear`, and then those in it; each timer that was
  -- accepted has fired, was cleared or waits, and is in one place only; and no timer fires before
  -- its millisecond.
  pub run-Kept : (ss : List (Section A)) → Kept full (run top ss (fresh full))
  run-Kept ss = run_from-Kept ss (fresh full) (record {
    in_order = refl;
    bounded = omega arith;
    limit = refl;
    all_timers = λ p. refl;
    on_time = tt;
  })
