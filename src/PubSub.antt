-- ===== src/PubSub.antt =====
-- pink/src/pink_pubsub.cc: the table of subscriptions of `PubSubThread`. The mutexes make each
-- operation one step; a connection is a number, `fd` gives its descriptor, and the calls of
-- `PinkEpoll` and of `close` are recorded in `calls`.
pub mod Tables
pub mod Counts
pub mod Once
pub mod Kept
pub mod Removal
pub mod General
pub mod Publish
pub mod Delivery
mod Tests
use pink.Base.{
  ℕ, zero, suc, ◌+◌, ◌-◌, Bool, true, false, not, ◌&&◌, List, [], ◌∷◌, ◌++◌, Option, none, some,
  map, ◌==◌, if◌then◌else◌, length, ℤ, pos, ◌+ℤ◌, ◌-ℤ◌, eqb_ℤ,
}
use pink.PubSub.Tables.{Bytes, Table, find, find_conn, erase_first, remove_all, insert, update}

pub data NotifyType : Type 0 where
  noti_wait : NotifyType

pub data ReadyState : Type 0 where
  not_ready ready : ReadyState

pub record ConnHandle : Type 0 where
  pub conn : ℕ
  pub ready_state : ReadyState

-- The calls of the event loop's handle and of the system.
pub data Call : Type 0 where
  register : ℕ → NotifyType → Call
  del_event : ℕ → Call
  mod_event : ℕ → Call
  close_fd : ℕ → Call

pub record PubSub : Type 0 where
  pub pubsub_channel : Table
  pub pubsub_pattern : Table
  pub conns : List (ℕ × ConnHandle)
  pub calls : List Call

abbrev pub empty : PubSub
empty = record { pubsub_channel = []; pubsub_pattern = []; conns = []; calls = [] }

abbrev pub call : PubSub → Call → PubSub
call s c = record s { calls = s.calls ++ c ∷ [] }

-- The map `conns_`.
unfoldable pub find_handle : ℕ → List (ℕ × ConnHandle) → Option ConnHandle
find_handle k [] = none
find_handle k ((j, h) ∷ m) = if j == k then some h else find_handle k m

unfoldable pub erase_handle : ℕ → List (ℕ × ConnHandle) → List (ℕ × ConnHandle)
erase_handle k [] = []
erase_handle k ((j, h) ∷ m) = if j == k then erase_handle k m else (j, h) ∷ erase_handle k m

abbrev pub set_handle : ℕ → ConnHandle → List (ℕ × ConnHandle) → List (ℕ × ConnHandle)
set_handle k h m = (k, h) ∷ erase_handle k m

unfoldable pub set_ready : ℕ → ReadyState → List (ℕ × ConnHandle) → List (ℕ × ConnHandle)
set_ready k r [] = []
set_ready k r ((j, h) ∷ m) =
    if j == k then (j, record h { ready_state = r }) ∷ m else (j, h) ∷ set_ready k r m

unfoldable pub update_conn_ready_state : PubSub → ℕ → ReadyState → PubSub
unfolding set_ready
update_conn_ready_state s k r = record s { conns = set_ready k r s.conns }

unfoldable pub is_ready : PubSub → ℕ → Bool
unfolding find_handle
is_ready s k = elim (find_handle k s.conns) [
  | none ↦ false
  | some h ↦ elim h.ready_state [ ready ↦ true | not_ready ↦ false ]
]

-- Each vector loses the first entry of the connection.
unfoldable pub remove_from : ℕ → Table → Table
remove_from conn [] = []
remove_from conn ((k, v) ∷ m) = (k, erase_first conn v) ∷ remove_from conn m

unfoldable pub remove_conn : PubSub → ℕ → PubSub
unfolding remove_from
remove_conn s conn = record s {
  pubsub_pattern = remove_from conn s.pubsub_pattern;
  pubsub_channel = remove_from conn s.pubsub_channel;
}

unfoldable pub count_in : ℕ → Table → ℕ
count_in conn [] = 0
count_in conn ((k, v) ∷ m) =
    let rest = count_in conn m in if find_conn conn v then rest + 1 else rest

unfoldable pub client_channel_size : PubSub → ℕ → ℕ
unfolding count_in
client_channel_size s conn = count_in conn s.pubsub_channel + count_in conn s.pubsub_pattern

-- `result`: the pairs that the command answers with. The counts are `int`s.
abbrev pub Result : Type 0
Result = List (Bytes × ℤ)

-- One channel of a `Subscribe`, on the table that it is written to: the table, and the count after.
unfoldable pub subscribe_in : Table → ℕ → Bytes → ℤ → Table × ℤ
subscribe_in t conn channel subscribed = elim (find channel t) [
  | none ↦ (insert channel (conn ∷ []) t, subscribed +ℤ pos 1)
  | some v ↦
      if find_conn conn v
      then (t, subscribed)
      else (update channel (v ++ conn ∷ []) t, subscribed +ℤ pos 1)
]

-- Both modes insert into `pubsub_pattern_`.
unfoldable pub subscribe_loop : PubSub → ℕ → List Bytes → Bool → ℤ → Result → PubSub × Result
unfolding subscribe_in
subscribe_loop s conn [] pattern subscribed result = (s, result)
subscribe_loop s conn (channel ∷ channels) pattern subscribed result =
    let (t, n) = subscribe_in s.pubsub_pattern conn channel subscribed in
    subscribe_loop (record s { pubsub_pattern = t }) conn channels pattern n
      (result ++ (channel, n) ∷ [])

unfoldable pub all_of : Table → ℕ → ℤ → Result
all_of [] conn subscribed = []
all_of ((k, v) ∷ m) conn subscribed =
    let gone = subscribed -ℤ pos 1 in
    let here = (k, gone) ∷ all_of m conn gone in
    let not_here = all_of m conn subscribed in if find_conn conn v then here else not_here

-- One channel of an `UnSubscribe`: the table, the count after, and the count answered.
unfoldable pub unsubscribe_in : Table → ℕ → Bytes → ℤ → Table × ℤ × ℤ
unsubscribe_in t conn channel subscribed = elim (find channel t) [
  | none ↦ (t, subscribed, pos 0)
  | some v ↦
      if find_conn conn v
      then (update channel (remove_all conn v) t, subscribed -ℤ pos 1, subscribed -ℤ pos 1)
      else (t, subscribed, subscribed)
]

unfoldable pub unsubscribe_loop : PubSub → ℕ → List Bytes → Bool → ℤ → Result → PubSub × Result
unfolding unsubscribe_in
unsubscribe_loop s conn [] pattern subscribed result = (s, result)
unsubscribe_loop s conn (channel ∷ channels) pattern subscribed result =
    let (t, n, answer) =
      unsubscribe_in (if pattern then s.pubsub_pattern else s.pubsub_channel) conn channel
        subscribed in
    unsubscribe_loop
      (if pattern then record s { pubsub_pattern = t } else record s { pubsub_channel = t }) conn
      channels pattern n (result ++ (channel, answer) ∷ [])

module _ (fd : ℕ → ℕ) where
  -- `conn` is a `shared_ptr` of the caller, not a reference into a table: with such a one, which only the
  -- delivery gives, it is `move_referred_out` of PubSub/Delivery.
  unfoldable pub move_conn_out : PubSub → ℕ → PubSub
  unfolding remove_conn erase_handle
  move_conn_out s conn =
      let r = call (remove_conn s conn) (del_event (fd conn)) in
      record r { conns = erase_handle (fd conn) r.conns }

  unfoldable pub move_conn_in : PubSub → ℕ → NotifyType → PubSub
  unfolding erase_handle
  move_conn_in s conn notify_type = record (call s (register (fd conn) notify_type)) {
    conns = set_handle (fd conn) (record { conn = conn; ready_state = not_ready }) s.conns;
  }

  unfoldable pub subscribe : PubSub → ℕ → List Bytes → Bool → PubSub × Result
  unfolding client_channel_size move_conn_in subscribe_loop
  subscribe s conn channels pattern =
      let subscribed = client_channel_size s conn in
      let entered = if subscribed == 0 then move_conn_in s conn noti_wait else s in
      subscribe_loop entered conn channels pattern (pos subscribed) []

  -- The state, the answer, and the number that is returned.
  unfoldable pub unsubscribe : PubSub → ℕ → List Bytes → Bool → PubSub × Result × ℕ
  unfolding client_channel_size move_conn_out unsubscribe_loop all_of
  unsubscribe s conn [] pattern =
      let subscribed = client_channel_size s conn in
      let result =
        all_of (if pattern then s.pubsub_pattern else s.pubsub_channel) conn (pos subscribed) in
      ((if subscribed == 0 then s else move_conn_out s conn), result, 0)
  unsubscribe s conn (channel ∷ channels) pattern =
      let subscribed = client_channel_size s conn in
      let (r, result) = unsubscribe_loop s conn (channel ∷ channels) pattern (pos subscribed) [] in
      let left = client_channel_size r conn in
      ((if left == 0 && not (subscribed == 0) then move_conn_out r conn else r), result, left)

-- `slash::stringmatchlen(pattern, string)`.
abbrev pub StringMatch : Type 0
StringMatch = Bytes → Bytes → Bool

abbrev pub is_nil {ℓ} : {A : Type ℓ} → List A → Bool
is_nil [] = true
is_nil (x ∷ xs) = false

unfoldable pub subscribed_keys : (Bytes → Bool) → Table → List Bytes
subscribed_keys test [] = []
subscribed_keys test ((k, v) ∷ m) =
    let rest = subscribed_keys test m in if test k && not (is_nil v) then k ∷ rest else rest

unfoldable pub pubsub_channels : StringMatch → PubSub → Bytes → List Bytes
unfolding subscribed_keys
pubsub_channels match s [] = subscribed_keys (λ k. true) s.pubsub_channel
pubsub_channels match s (c ∷ pattern) =
    subscribed_keys (λ k. match k (c ∷ pattern)) s.pubsub_channel

-- The loop over all channels: the last one of that name counts.
unfoldable pub size_of : Bytes → Table → ℕ → ℕ
size_of channel [] n = n
size_of channel ((k, v) ∷ m) n = size_of channel m (if Tables.same k channel then length v else n)

unfoldable pub pubsub_num_sub : PubSub → List Bytes → List (Bytes × ℕ)
unfolding size_of
pubsub_num_sub s [] = []
pubsub_num_sub s (c ∷ cs) = (c, size_of c s.pubsub_channel 0) ∷ pubsub_num_sub s cs

unfoldable pub pubsub_num_pat_in : Table → ℕ
pubsub_num_pat_in [] = 0
pubsub_num_pat_in ((k, v) ∷ m) = length v + pubsub_num_pat_in m

unfoldable pub pubsub_num_pat : PubSub → ℕ
unfolding pubsub_num_pat_in
pubsub_num_pat s = pubsub_num_pat_in s.pubsub_pattern
