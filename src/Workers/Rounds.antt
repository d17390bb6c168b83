-- ===== src/Workers/Rounds.antt =====
-- Which worker `HandleNewConn` of pink/src/dispatch_thread.cc gives a connection to.
use pink.Base.{ℕ, suc, ◌%◌, List, [], ◌∷◌, Option, none, some, ◌==◌, if◌then◌else◌}
use pink.Workers.{Worker, Dispatch, handle_new_conn}

-- The new connections, one after another.
unfoldable pub handle_all : List ℕ → Dispatch → Dispatch
handle_all [] d = d
handle_all (fd ∷ fds) d = handle_all fds (handle_new_conn fd d)

abbrev pub registered_of : Option Worker → List ℕ
registered_of none = []
registered_of (some w) = w.registered

-- The share of worker j among n, where the first connection goes to worker `next`.
abbrev pub share : ℕ → ℕ → ℕ → List ℕ → List ℕ
share j n next [] = []
share j n next (fd ∷ fds) =
    if next == j then fd ∷ share j n (suc next % n) fds else share j n (suc next % n) fds
