-- ===== src/Tasks/Tests.antt =====
-- The task queue with a concrete queue of timers.
use pink.Base.{
  ℕ, ◌≡◌, refl, Bool, List, [], ◌∷◌, Option, none, some, leb, if◌then◌else◌, if-elim, arith, subst,
}
use pink.Tasks.{
  Timer, queue_cap, schedule, delay_schedule, stop, run_front, run_top, swallow_top, run_once,
  swallow_timer,
}
use pink.Tasks.Ledger.{
  ran, Section, schedules, delays, turns, clears, stops, swallows_timer, fresh, step, run,
  swallow_ready_tasks,
}
use pink.Tasks.Effects.{count, TopLaw}
use pink.Tasks.Kept.{Kept, run-Kept}
use pink.Tasks.Drain.{Drained, swallow_ready_tasks-all}

-- The timer with the least time, and the others.
abbrev sooner : Timer ℕ → Option (Timer ℕ × List (Timer ℕ)) → Timer ℕ × List (Timer ℕ)
sooner t none = (t, [])
sooner t (some (u, rest)) = if leb t.exec_time u.exec_time then (t, u ∷ rest) else (u, t ∷ rest)

abbrev soonest : List (Timer ℕ) → Option (Timer ℕ × List (Timer ℕ))
soonest [] = none
soonest (t ∷ ts) = some (sooner t (soonest ts))

abbrev Same : (Timer ℕ → Bool) → List (Timer ℕ) → Option (Timer ℕ × List (Timer ℕ)) → Type 0
Same p ts none = count p ts ≡ 0
Same p ts (some (t, rest)) = count p ts ≡ count p (t ∷ rest)

sooner-Same :
    (p : Timer ℕ → Bool) (t : Timer ℕ) (ts : List (Timer ℕ)) (o : Option (Timer ℕ × List (Timer ℕ)))
    → Same p ts o
    → count p (t ∷ ts) ≡ count p ((sooner t o).0 ∷ (sooner t o).1)
sooner-Same p t ts none h = omega arith
sooner-Same p t ts (some (u, rest)) h =
    if-elim {A = Timer ℕ × List (Timer ℕ)} (λ x. count p (t ∷ ts) ≡ count p (x.0 ∷ x.1))
      (leb t.exec_time u.exec_time) (λ _. omega arith) (λ _. omega arith)

soonest-Same : (p : Timer ℕ → Bool) (ts : List (Timer ℕ)) → Same p ts (soonest ts)
soonest-Same p [] = refl
soonest-Same p (t ∷ ts) = sooner-Same p t ts (soonest ts) (soonest-Same p ts)

soonest-TopLaw : TopLaw soonest
soonest-TopLaw ts t rest e p = subst (Same p ts) e (soonest-Same p ts)

-- Two tasks, a timer of one millisecond that is not due, a turn, a stop, and the second loop of the end.
abbrev a_day : List (Section ℕ)
a_day =
    schedules 7
    ∷ schedules 8
    ∷ delays 1000 1 9
    ∷ turns 1500
    ∷ stops
    ∷ schedules 10
    ∷ swallows_timer 2000
    ∷ []

the_day : (run soonest a_day (fresh 2)).left ≡ ran 7 ∷ []
unfolding run step schedule delay_schedule run_once run_top run_front stop swallow_timer swallow_top
the_day = refl

run-Kept_example : Kept queue_cap (run soonest a_day (fresh queue_cap))
run-Kept_example = run-Kept soonest soonest-TopLaw queue_cap a_day

-- A task is left, and while it runs another thread tries to schedule and clears.
swallow_ready_tasks-all_example :
    Drained soonest soonest-TopLaw 2 (run soonest a_day (fresh 2)) (
      swallow_ready_tasks soonest ((schedules 11 ∷ clears ∷ []) ∷ []) (run soonest a_day (fresh 2)))
unfolding run step schedule delay_schedule run_once run_top run_front stop swallow_timer swallow_top
swallow_ready_tasks-all_example =
    swallow_ready_tasks-all soonest soonest-TopLaw 2 a_day ((schedules 11 ∷ clears ∷ []) ∷ []) refl
      (omega arith)
