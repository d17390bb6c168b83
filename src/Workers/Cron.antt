-- ===== src/Workers/Cron.antt =====
-- What `DoCronTask` does with the connections.
use pink.Base.{
  ℕ, ◌+◌, ◌-◌, ◌≡◌, refl, false, ◌&&◌, List, [], ◌∷◌, ◌++◌, ltb, ◌==◌, if◌then◌else◌, if-elim,
  arith,
}
use pink.Workers.{
  Bytes, Conn, Worker, Swept, kill_all_conns, member, erase, sweep, fds, do_cron_task,
}

-- How often a descriptor is in a list.
abbrev pub count : ℕ → List ℕ → ℕ
count fd [] = 0
count fd (x ∷ xs) = (if x == fd then 1 else 0) + count fd xs

count-append : (fd : ℕ) (xs ys : List ℕ) → count fd (xs ++ ys) ≡ count fd xs + count fd ys
count-append fd [] ys = omega arith
count-append fd (x ∷ xs) ys = omega (arith, count-append fd xs ys)

abbrev Parted : ℕ → List Conn → Swept → Type 0
Parted fd cs s =
    count fd (fds cs)
    ≡ count fd (fds s.kept) + (count fd (fds s.to_close) + count fd (fds s.to_timeout))

sweep-Parted :
    (fd now timeout : ℕ) (deleting : List Bytes) (cs : List Conn)
    → Parted fd cs (sweep now timeout deleting cs)
unfolding sweep
sweep-Parted fd now timeout deleting [] = refl
sweep-Parted fd now timeout deleting (c ∷ cs) =
    let rec =
      sweep-Parted fd now timeout
        (if member c.ip_port deleting then erase c.ip_port deleting else deleting) cs in
    if-elim (Parted fd (c ∷ cs)) (member c.ip_port deleting) (λ _. omega arith)
      (λ _.
        if-elim (Parted fd (c ∷ cs)) (ltb 0 timeout && ltb timeout (now - c.last_interaction))
          (λ _. omega arith) (λ _. omega arith))

-- If no one has asked to kill all connections, `DoCronTask` keeps or closes each connection, and closes
-- none that it keeps: of each descriptor, those that it had are those that it has and those that it has newly closed.
pub do_cron_task-count :
    (fd now : ℕ) (w : Worker)
    → member kill_all_conns w.deleting ≡ false
    → count fd (do_cron_task now w).closed + count fd (fds (do_cron_task now w).conns)
      ≡ count fd w.closed + count fd (fds w.conns)
unfolding do_cron_task
do_cron_task-count fd now w quiet =
    let s = sweep now w.keepalive_timeout w.deleting w.conns in
    let parts = sweep-Parted fd now w.keepalive_timeout w.deleting w.conns in
    let outer = count-append fd w.closed (fds s.to_close ++ fds s.to_timeout) in
    let inner = count-append fd (fds s.to_close) (fds s.to_timeout) in
    ground (arith, quiet, parts, outer, inner)
