-- ===== src/Workers/Tests.antt =====
-- Workers with a few connections.
use pink.Base.{◌+◌, ◌≡◌, refl, true, false, [], ◌∷◌}
use pink.PubSub.Tables.{same}
use pink.Workers.{
  Worker, Dispatch, new_worker, kill_all_conns, member, erase, fds, sweep, do_cron_task,
  try_kill_conn,
}
use pink.Workers.Cron.{count, do_cron_task-count}

-- One that was used just now, one that has been idle, and one that is to be killed.
abbrev three : Worker
three = record new_worker {
  conns =
      record { fd = 5; ip_port = 49 ∷ []; last_interaction = 100; is_waiting_del = false }
      ∷ record { fd = 6; ip_port = 50 ∷ []; last_interaction = 10; is_waiting_del = false }
      ∷ record { fd = 7; ip_port = 51 ∷ []; last_interaction = 100; is_waiting_del = true }
      ∷ [];
  deleting = (51 ∷ []) ∷ [];
}

swept : (do_cron_task 110 three).closed ≡ 7 ∷ 6 ∷ []
unfolding do_cron_task sweep member erase same
swept = refl

three-quiet : member kill_all_conns three.deleting ≡ false
unfolding member same
three-quiet = refl

do_cron_task-count_example :
    count 6 (do_cron_task 110 three).closed + count 6 (fds (do_cron_task 110 three).conns)
    ≡ count 6 three.closed + count 6 (fds three.conns)
do_cron_task-count_example = do_cron_task-count 6 110 three three-quiet

-- All connections are forgotten, and no descriptor is closed.
all_killed :
    ((do_cron_task 110 (try_kill_conn kill_all_conns three).1).conns ≡ [])
    × ((do_cron_task 110 (try_kill_conn kill_all_conns three).1).closed ≡ three.closed)
unfolding do_cron_task try_kill_conn member same
all_killed = (refl, refl)

abbrev two_workers : Dispatch
two_workers = record { workers = new_worker ∷ three ∷ []; last_thread = 1; closed_fds = [] }
