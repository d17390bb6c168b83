-- ===== src/PubSub/Delivery/Tests.antt =====
-- A message for three subscribers, of which the first one has gone.
use pink.Base.{ℕ, ◌+◌, ◌≡◌, refl, List, [], ◌∷◌, some, ◌==◌, if◌then◌else◌}
use pink.PubSub.Tables.{Bytes, same, find, update, erase_first}
use pink.PubSub.{
  PubSub, ConnHandle, ready, del_event, close_fd, erase_handle, find_handle, is_ready,
}
use pink.PubSub.Publish.{construct_publish_resp}
use pink.PubSub.Delivery.{
  entries, referred, remove_referred, forget_referred, move_referred_out, on_status, deliver_to,
  deliver_loop, deliver_keys, deliver_message,
}
use pink.Pb.Conn.{WriteStatus, write_all, write_error}

abbrev handle : ℕ → ConnHandle
handle c = record { conn = c; ready_state = ready }

abbrev fd : ℕ → ℕ
fd c = c + 100

-- The pattern "n" with the connections 1, 2 and 3.
abbrev three_subscribers : PubSub
three_subscribers = record {
  pubsub_channel = [];
  pubsub_pattern = (110 ∷ [], 1 ∷ 2 ∷ 3 ∷ []) ∷ [];
  conns = (101, handle 1) ∷ (102, handle 2) ∷ (103, handle 3) ∷ [];
  calls = [];
}

-- Connection 1 fails, the others take the message.
abbrev send : ℕ → Bytes → List ℕ → WriteStatus × List ℕ
send c resp got = if c == 1 then (write_error, got) else (write_all, c ∷ got)

-- Connection 2 is forgotten and closed in its place, and gets no message; 3 does.
next_one_closed :
    deliver_message fd send same (110 ∷ []) (104 ∷ []) three_subscribers []
    ≡ some (
      record {
        pubsub_channel = [];
        pubsub_pattern = (110 ∷ [], 2 ∷ 3 ∷ []) ∷ [];
        conns = (101, handle 1) ∷ (103, handle 3) ∷ [];
        calls = del_event 102 ∷ close_fd 102 ∷ [];
      },
      1,
      3 ∷ [],
    )
unfolding deliver_message deliver_keys deliver_loop deliver_to on_status move_referred_out
    remove_referred forget_referred referred entries same find update erase_first erase_handle
    is_ready find_handle construct_publish_resp
next_one_closed = refl
