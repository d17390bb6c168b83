-- ===== src/Workers.antt =====
-- pink/src/worker_thread.cc: the table of connections of `WorkerThread`, and pink/src/dispatch_thread.cc:
-- `DispatchThread`, which deals connections out to the workers.
use pink.Base.{
  ℕ, zero, suc, ◌+◌, ◌-◌, ◌%◌, Bool, true, false, ◌&&◌, ◌||◌, not, List, [], ◌∷◌, ◌++◌, Option,
  none, some, ltb, ◌==◌, if◌then◌else◌, length, map, get_elem?, set,
}
use pink.PubSub.Tables.{same}
pub mod Cron
pub mod Rounds
mod Tests

abbrev pub Bytes : Type 0
Bytes = List ℕ

-- "kill_all_conns".
abbrev pub kill_all_conns : Bytes
kill_all_conns =
    b'k' ∷ b'i' ∷ b'l' ∷ b'l' ∷ b'_' ∷ b'a' ∷ b'l' ∷ b'l' ∷ b'_' ∷ b'c' ∷ b'o' ∷ b'n' ∷ b'n' ∷ b's'
    ∷ []

-- `last_interaction` in seconds.
pub record Conn : Type 0 where
  pub fd : ℕ
  pub ip_port : Bytes
  pub last_interaction : ℕ
  pub is_waiting_del : Bool

-- `conns` is the map by descriptor, `deleting` the set of addresses. `registered` is what has been written to
-- the pipe, `removed` the descriptors that left epoll, `closed` those that were closed and `timed_out` those
-- given to FdTimeoutHandle.
pub record Worker : Type 0 where
  pub conns : List Conn
  pub deleting : List Bytes
  pub keepalive_timeout : ℕ
  pub registered : List ℕ
  pub removed : List ℕ
  pub closed : List ℕ
  pub timed_out : List ℕ

abbrev pub new_worker : Worker
new_worker = record {
  conns = [];
  deleting = [];
  keepalive_timeout = 60;
  registered = [];
  removed = [];
  closed = [];
  timed_out = [];
}

unfoldable pub member : Bytes → List Bytes → Bool
member k [] = false
member k (x ∷ xs) = same k x || member k xs

unfoldable pub erase : Bytes → List Bytes → List Bytes
erase k [] = []
erase k (x ∷ xs) = let rest = erase k xs in if same k x then rest else x ∷ rest

unfoldable pub find_conn : ℕ → List Conn → Option Conn
find_conn fd [] = none
find_conn fd (c ∷ cs) = let rest = find_conn fd cs in if c.fd == fd then some c else rest

unfoldable pub erase_conn : ℕ → List Conn → List Conn
erase_conn fd [] = []
erase_conn fd (c ∷ cs) = let rest = erase_conn fd cs in if c.fd == fd then rest else c ∷ rest

unfoldable pub move_conn_out : ℕ → Worker → Option Conn × Worker
move_conn_out fd w = elim (find_conn fd w.conns) [
  | none ↦ (none, w)
  | some c ↦ (some c, record w { conns = erase_conn fd w.conns; removed = w.removed ++ fd ∷ [] })
]

-- `PinkEpoll::Register`, which always succeeds, on a descriptor.
unfoldable pub register : ℕ → Worker → Bool × Worker
register fd w = (true, record w { registered = w.registered ++ fd ∷ [] })

unfoldable pub move_conn_in : Conn → Worker → Bool × Worker
move_conn_in c w =
    let (success, v) = register c.fd w in
    (success, if success then record v { conns = c ∷ erase_conn c.fd v.conns } else v)

-- The loop of `TryKillConn`.
unfoldable pub mark : Bytes → List Conn → Bool × List Conn
mark ip_port [] = (false, [])
mark ip_port (c ∷ cs) =
    let (find, rest) = mark ip_port cs in
    if same c.ip_port ip_port
    then (true, record c { is_waiting_del = true } ∷ cs)
    else (find, c ∷ rest)

unfoldable pub try_kill_conn : Bytes → Worker → Bool × Worker
try_kill_conn ip_port w =
    let (find, marked) =
      if same ip_port kill_all_conns then (false, w.conns) else mark ip_port w.conns in
    let v = record w { conns = marked } in
    if find || same ip_port kill_all_conns
    then (true, record v { deleting = ip_port ∷ erase ip_port v.deleting })
    else (false, v)

pub record Swept : Type 0 where
  pub kept : List Conn
  pub to_close : List Conn
  pub to_timeout : List Conn
  pub deleting_left : List Bytes

-- The loop over the connections; those that stay may resize their buffer, which is in Redis/Conn and Pb/Resize.
unfoldable pub sweep : ℕ → ℕ → List Bytes → List Conn → Swept
sweep now timeout deleting [] = record {
  kept = [];
  to_close = [];
  to_timeout = [];
  deleting_left = deleting;
}
sweep now timeout deleting (c ∷ cs) =
    let kill = member c.ip_port deleting in
    let rest = sweep now timeout (if kill then erase c.ip_port deleting else deleting) cs in
    if kill
    then record rest { to_close = record c { is_waiting_del = true } ∷ rest.to_close }
    else (if ltb 0 timeout && ltb timeout (now - c.last_interaction)
        then record rest { to_timeout = c ∷ rest.to_timeout }
        else record rest { kept = c ∷ rest.kept })

abbrev pub fds : List Conn → List ℕ
fds cs = map (λ c. c.fd) cs

unfoldable pub do_cron_task : ℕ → Worker → Worker
do_cron_task now w =
    if member kill_all_conns w.deleting
    then record w { conns = []; deleting = [] }
    else (let s = sweep now w.keepalive_timeout w.deleting w.conns in
        record w {
          conns = s.kept;
          deleting = s.deleting_left;
          closed = w.closed ++ (fds s.to_close ++ fds s.to_timeout);
          timed_out = w.timed_out ++ fds s.to_timeout;
        })

unfoldable pub cleanup : Worker → Worker
cleanup w = record w { conns = []; closed = w.closed ++ fds w.conns }

-- `closed_fds` are those that the dispatcher itself closed.
pub record Dispatch : Type 0 where
  pub workers : List Worker
  pub last_thread : ℕ
  pub closed_fds : List ℕ

-- A turn of the loop of `HandleNewConn`, on the worker that is asked; `rest` are the later turns.
unfoldable pub offered : Option Worker → ℕ → ℕ → Dispatch → Dispatch → Dispatch
offered none next fd d rest = rest
offered (some w) next fd d rest =
    let (find, v) = register fd w in
    if find
    then record d { workers = set d.workers next v; last_thread = suc next % length d.workers }
    else rest

-- The loop, where `cnt` turns are left. A worker that is not there cannot be asked.
unfoldable pub offer : ℕ → ℕ → ℕ → Dispatch → Dispatch
offer zero next fd d = record d { closed_fds = d.closed_fds ++ fd ∷ [] }
offer (suc cnt) next fd d =
    offered (get_elem? d.workers next) next fd d (offer cnt (suc next % length d.workers) fd d)

unfoldable pub handle_new_conn : ℕ → Dispatch → Dispatch
handle_new_conn fd d = offer (length d.workers) d.last_thread fd d

-- `MoveConnOut` of the dispatcher: the first worker that has the connection.
unfoldable pub take_conn : ℕ → List Worker → Option Conn × List Worker
take_conn fd [] = (none, [])
take_conn fd (w ∷ ws) =
    let (c, v) = move_conn_out fd w in
    let (d, vs) = take_conn fd ws in elim c [ none ↦ (d, v ∷ vs) | some x ↦ (some x, v ∷ ws) ]

unfoldable pub kill_conn : Bytes → List Worker → Bool × List Worker
kill_conn ip_port [] = (false, [])
kill_conn ip_port (w ∷ ws) =
    let (a, v) = try_kill_conn ip_port w in let (b, vs) = kill_conn ip_port ws in (a || b, v ∷ vs)

unfoldable pub conn_num : List Worker → ℕ
conn_num [] = 0
conn_num (w ∷ ws) = length w.conns + conn_num ws

-- `MoveConnIn` of the dispatcher.
unfoldable pub hand_over : Conn → Dispatch → Dispatch
hand_over c d = elim (get_elem? d.workers d.last_thread) [
  | none ↦ d
  | some w ↦
      let (success, v) = move_conn_in c w in
      let e = record d { workers = set d.workers d.last_thread v } in
      if success then record e { last_thread = suc d.last_thread % length d.workers } else e
]
