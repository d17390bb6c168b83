-- ===== src/Tasks/Effects.antt =====
-- What each critical section of the task queue does to the queue, on every branch.
use pink.Base.{
  ℕ, ◌+◌, ◌-◌, ◌*◌, ◌/◌, ◌%◌, ◌^◌, ◌≤◌, ◌<◌, ◌≡◌, refl, Bool, true, false, not, ◌&&◌, List, [], ◌∷◌,
  ◌++◌, Option, none, some, leb, if◌then◌else◌, length, arith, if-elim,
}
use pink.Tasks.{
  Timer, TaskQueue, Scheduled, accepted, Turn, sleeps, sleeps_for, fires, runs, schedule,
  delay_schedule, due, run_front, run_top, swallow_top, run_once, swallow_timer,
}

-- How often a timer of a kind is in a list.
abbrev pub count : {A : Type 0} → (Timer A → Bool) → List (Timer A) → ℕ
count p [] = 0
count p (t ∷ ts) = (if p t then 1 else 0) + count p ts

-- What the documentation of `std::priority_queue` says: the top is one of the items, and `pop` takes it away.
abbrev pub TopLaw : {A : Type 0} → (List (Timer A) → Option (Timer A × List (Timer A))) → Type 0
TopLaw {A} top =
    (ts : List (Timer A)) (t : Timer A) (rest : List (Timer A))
    → top ts ≡ some (t, rest)
    → (p : Timer A → Bool) → count p ts ≡ count p (t ∷ rest)

module _ {A : Type 0} where
  -- What a critical section does to the queue, by its result.
  abbrev pub ScheduleOk : A → TaskQueue A → Scheduled × TaskQueue A → Type 0
  ScheduleOk a q (accepted, r) =
      (r.queue ≡ q.queue ++ a ∷ [])
      × (length q.queue < q.full)
      × (r.timers ≡ q.timers)
      × (r.full ≡ q.full)
  ScheduleOk a q (_, r) = r ≡ q

  abbrev pub DelayOk : Timer A → TaskQueue A → Scheduled × TaskQueue A → Type 0
  DelayOk t q (accepted, r) = (r.queue ≡ q.queue) × (r.timers ≡ t ∷ q.timers) × (r.full ≡ q.full)
  DelayOk t q (_, r) = r ≡ q

  abbrev pub TurnOk : ℕ → TaskQueue A → Turn A × TaskQueue A → Type 0
  TurnOk now q (runs a, r) = (q.queue ≡ a ∷ r.queue) × (r.timers ≡ q.timers) × (r.full ≡ q.full)
  TurnOk now q (fires t, r) =
      (r.queue ≡ q.queue)
      × (r.full ≡ q.full)
      × ((p : Timer A → Bool) → count p q.timers ≡ count p (t ∷ r.timers))
      × (t.exec_time / 1000 ≤ now / 1000)
  TurnOk now q (_, r) = r ≡ q

  pub schedule-ScheduleOk : (a : A) (q : TaskQueue A) → ScheduleOk a q (schedule a q)
  unfolding schedule
  schedule-ScheduleOk a q =
      if-elim (ScheduleOk a q) (leb q.full (length q.queue) && not q.stopped) (λ busy. refl)
        (λ free.
          if-elim (ScheduleOk a q) (not q.stopped)
            (λ on. (refl, room q.stopped on free, refl, refl)) (λ off. refl))
    where
      room :
          (b : Bool)
          → not b ≡ true
          → (leb q.full (length q.queue) && not b) ≡ false
          → length q.queue < q.full
      room b on free = ground arith

  pub delay_schedule-DelayOk :
      (now timeout : ℕ) (a : A) (q : TaskQueue A)
      → DelayOk
          (record { exec_time = (now + timeout * 1000) % 2 ^ 64; task = a })
          q
          (delay_schedule now timeout a q)
  unfolding delay_schedule
  delay_schedule-DelayOk now timeout a q =
      if-elim (DelayOk (record { exec_time = (now + timeout * 1000) % 2 ^ 64; task = a }) q)
        (not q.stopped) (λ on. (refl, refl, refl)) (λ off. refl)

  pub run_front-TurnOk :
      (now : ℕ) (items : List A) (u : Turn A) (q : TaskQueue A)
      → q.queue ≡ items
      → TurnOk now q (u, q)
      → TurnOk now q (run_front items u q)
  unfolding run_front
  run_front-TurnOk now [] u q e h = h
  run_front-TurnOk now (a ∷ rest) u q e h = (e, refl, refl)

module _ {A : Type 0} (top : List (Timer A) → Option (Timer A × List (Timer A)))
    (law : TopLaw top) where
  fires-TurnOk :
      (now : ℕ) (q : TaskQueue A) (t : Timer A) (rest : List (Timer A))
      → top q.timers ≡ some (t, rest)
      → due now t ≡ true
      → TurnOk now q (fires t, record q { timers = rest })
  fires-TurnOk now q t rest e d = (refl, refl, law q.timers t rest e, ground arith)

  run_top-TurnOk :
      (now : ℕ) (q : TaskQueue A) (o : Option (Timer A × List (Timer A)))
      → top q.timers ≡ o
      → TurnOk now q (run_top now q o)
  unfolding run_top
  run_top-TurnOk now q none e = run_front-TurnOk now q.queue sleeps q refl refl
  run_top-TurnOk now q (some (t, rest)) e =
      if-elim (TurnOk now q) (due now t) (fires-TurnOk now q t rest e) (λ _.
        run_front-TurnOk now q.queue (sleeps_for ((t.exec_time - now) / 1000 % 2 ^ 32)) q refl refl)

  pub run_once-TurnOk : (now : ℕ) (q : TaskQueue A) → TurnOk now q (run_once top now q)
  unfolding run_once
  run_once-TurnOk now q =
      if-elim (TurnOk now q) q.stopped (λ off. refl)
        (λ on. run_top-TurnOk now q (top q.timers) refl)

  pub swallow_timer-TurnOk : (now : ℕ) (q : TaskQueue A) → TurnOk now q (swallow_timer top now q)
  unfolding swallow_timer swallow_top
  swallow_timer-TurnOk now q = swallow_top-TurnOk (top q.timers) refl
    where
      swallow_top-TurnOk :
          (o : Option (Timer A × List (Timer A)))
          → top q.timers ≡ o
          → TurnOk now q (swallow_top now q o)
      swallow_top-TurnOk none e = refl
      swallow_top-TurnOk (some (t, rest)) e =
          if-elim (TurnOk now q) (due now t) (fires-TurnOk now q t rest e) (λ _. refl)
