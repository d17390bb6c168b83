-- ===== src/PubSub/Tests.antt =====
-- The table of subscriptions at concrete inputs.
use pink.Base.{ℕ, ◌≡◌, refl, true, false, List, [], ◌∷◌, map, pos, arith}
use pink.PubSub.Tables.{Bytes, same, find, find_conn, insert}
use pink.PubSub.{
  empty, subscribe, client_channel_size, pubsub_num_sub, move_conn_out, pubsub_channels,
}
use pink.PubSub.Counts.{last_count, subscribe-client_channel_size}
use pink.PubSub.Removal.{Op, subscribes, loses, after, client_channel_size-move_conn_out}
use pink.PubSub.General.{after-pubsub_channel}

abbrev news : Bytes
news = 110 ∷ []

abbrev mail : Bytes
mail = 109 ∷ []

abbrev fd_of : ℕ → ℕ
fd_of c = c

abbrev history : List Op
history =
    loses (record { in_pattern = true; key = mail; index = 0 })
    ∷ subscribes 3 (mail ∷ []) true
    ∷ subscribes 2 (news ∷ []) true
    ∷ subscribes 1 (news ∷ mail ∷ []) false
    ∷ []

-- A client that subscribes twice to a channel is counted once.
subscribe_twice :
    (subscribe fd_of empty 1 (news ∷ mail ∷ news ∷ []) true).1
    ≡ (news, pos 1) ∷ (mail, pos 2) ∷ (news, pos 2) ∷ []
unfolding subscribe find insert find_conn
subscribe_twice = refl

subscribe-client_channel_size_example :
    last_count
      (pos (client_channel_size empty 1))
      (subscribe fd_of empty 1 (news ∷ mail ∷ []) false).1
    ≡ pos (client_channel_size (subscribe fd_of empty 1 (news ∷ mail ∷ []) false).0 1)
subscribe-client_channel_size_example =
    subscribe-client_channel_size fd_of empty 1 (news ∷ mail ∷ []) false

client_channel_size-move_conn_out_example :
    (client_channel_size (move_conn_out fd_of (after fd_of history) 1) 1 ≡ 0)
    × (client_channel_size (move_conn_out fd_of (after fd_of history) 1) 2
        ≡ client_channel_size (after fd_of history) 2)
client_channel_size-move_conn_out_example =
    client_channel_size-move_conn_out fd_of history 1 2 (λ e. omega arith)

after-pubsub_channel_example :
    ((after fd_of history).pubsub_channel ≡ [])
    × (pubsub_channels same (after fd_of history) [] ≡ [])
    × (pubsub_num_sub (after fd_of history) (news ∷ []) ≡ map (λ k. (k, 0)) (news ∷ []))
after-pubsub_channel_example = after-pubsub_channel fd_of same history [] (news ∷ [])
