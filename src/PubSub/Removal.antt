-- ===== src/PubSub/Removal.antt =====
-- Removing a connection, and histories of operations, in pink/src/pink_pubsub.cc.
use pink.Base.{
  ℕ, ◌≡◌, ◌≢◌, refl, Bool, true, false, List, [], ◌∷◌, Option, none, some, ◌==◌, if◌then◌else◌, pos,
  arith,
}
use pink.PubSub.Tables.{Bytes, Table}
use pink.PubSub.Delivery.{Slot, move_referred_out}
use pink.PubSub.{
  PubSub, NotifyType, noti_wait, ReadyState, empty, count_in, client_channel_size, subscribe,
  move_conn_in, move_conn_out, remove_from, remove_conn, unsubscribe_loop, unsubscribe,
  update_conn_ready_state,
}
use pink.PubSub.Once.{remove_from-AllOnce, count_in-remove_from, count_in-remove_from_ne}
use pink.PubSub.Kept.{
  subscribe_loop-IsValid, unsubscribe_loop-IsValid, LeavesValid, move_referred_out-LeavesValid,
  IsValid,
}

-- The operations on the table of subscriptions. `loses` is a send that fails in a delivery: `MoveConnOut` and
-- `CloseFd` on the reference into the vector, which hit another subscriber there.
pub data Op : Type 0 where
  subscribes unsubscribes : ℕ → List Bytes → Bool → Op
  moves_in : ℕ → NotifyType → Op
  moves_out : ℕ → Op
  updates : ℕ → ReadyState → Op
  loses : Slot → Op

module _ (fd : ℕ → ℕ) where
  pub step : PubSub → Op → PubSub
  step s (subscribes c ks pattern) = (subscribe fd s c ks pattern).0
  step s (unsubscribes c ks pattern) = (unsubscribe fd s c ks pattern).0
  step s (moves_in c n) = move_conn_in fd s c n
  step s (moves_out c) = move_conn_out fd s c
  step s (updates k r) = update_conn_ready_state s k r
  step s (loses r) = elim (move_referred_out fd r s) [ none ↦ s | some t ↦ t ]

  -- A history from the start.
  pub after : List Op → PubSub
  after [] = empty
  after (o ∷ os) = step (after os) o

  move_conn_out-IsValid : (s : PubSub) (c : ℕ) → IsValid s → IsValid (move_conn_out fd s c)
  unfolding move_conn_out remove_conn
  move_conn_out-IsValid s c v = record {
    no_channel = rw v.no_channel (unfold remove_from in refl);
    once = remove_from-AllOnce c s.pubsub_pattern v.once;
  }

  move_conn_in-IsValid :
      (s : PubSub) (c : ℕ) (n : NotifyType) → IsValid s → IsValid (move_conn_in fd s c n)
  unfolding move_conn_in
  move_conn_in-IsValid s c n v = record { no_channel = v.no_channel; once = v.once }

  step-IsValid : (s : PubSub) (o : Op) → IsValid s → IsValid (step s o)
  unfolding step subscribe unsubscribe update_conn_ready_state
  step-IsValid s (subscribes c ks pattern) v =
      subscribe_loop-IsValid ks _ c pattern _ [] (pick (client_channel_size s c == 0))
    where
      pick : (b : Bool) → IsValid (if b then move_conn_in fd s c noti_wait else s)
      pick true = move_conn_in-IsValid s c noti_wait v
      pick false = v
  step-IsValid s (unsubscribes c [] pattern) v = pick (client_channel_size s c == 0)
    where
      pick : (b : Bool) → IsValid (if b then s else move_conn_out fd s c)
      pick true = v
      pick false = move_conn_out-IsValid s c v
  step-IsValid s (unsubscribes c (k ∷ ks) pattern) v = pick _
    where
      left : PubSub
      left = (unsubscribe_loop s c (k ∷ ks) pattern (pos (client_channel_size s c)) []).0

      pick : (b : Bool) → IsValid (if b then move_conn_out fd left c else left)
      pick true =
          move_conn_out-IsValid left c (unsubscribe_loop-IsValid (k ∷ ks) s c pattern _ [] v)
      pick false = unsubscribe_loop-IsValid (k ∷ ks) s c pattern _ [] v
  step-IsValid s (moves_in c n) v = move_conn_in-IsValid s c n v
  step-IsValid s (moves_out c) v = move_conn_out-IsValid s c v
  step-IsValid s (updates k r) v = record { no_channel = v.no_channel; once = v.once }
  step-IsValid s (loses r) v =
      pick (move_referred_out fd r s) (move_referred_out-LeavesValid fd r s v)
    where
      pick : (o : Option PubSub) → LeavesValid o → IsValid (elim o [ none ↦ s | some t ↦ t ])
      pick none h = v
      pick (some t) h = h

  pub after-IsValid : (os : List Op) → IsValid (after os)
  unfolding after
  after-IsValid [] = record { no_channel = refl; once = tt }
  after-IsValid (o ∷ os) = step-IsValid (after os) o (after-IsValid os)

  -- After any history of subscriptions, moves, updates and sends that fail in a delivery, `MoveConnOut` with a
  -- `shared_ptr` that does not stand in a table itself, as its callers but the delivery have it, leaves the
  -- connection in no vector of either table, and every other connection in as many as before.
  pub client_channel_size-move_conn_out :
      (os : List Op) (conn other : ℕ)
      → other ≢ conn
      → (client_channel_size (move_conn_out fd (after os) conn) conn ≡ 0)
        × (client_channel_size (move_conn_out fd (after os) conn) other
            ≡ client_channel_size (after os) other)
  unfolding move_conn_out remove_conn client_channel_size
  client_channel_size-move_conn_out os conn other ne =
      let v = after-IsValid os in
      (
        omega (
          arith,
          no_count (after os).pubsub_channel v.no_channel,
          count_in-remove_from conn (after os).pubsub_pattern v.once,
        ),
        omega (
          arith,
          count_in-remove_from_ne conn other (after os).pubsub_channel ne,
          count_in-remove_from_ne conn other (after os).pubsub_pattern ne,
        ),
      )
    where
      no_count : (t : Table) → t ≡ [] → count_in conn (remove_from conn t) ≡ 0
      no_count t e = rw e (unfold count_in remove_from in refl)
