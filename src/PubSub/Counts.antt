-- ===== src/PubSub/Counts.antt =====
-- The counts that `Subscribe` answers with.
use pink.Base.{
  ℕ, ◌+◌, ◌≡◌, refl, sym, ap, Bool, true, false, List, [], ◌∷◌, ◌++◌, some, ◌==◌, if◌then◌else◌, ℤ,
  pos, arith, Option-cases, Bool-cases, inl, inr,
}
use pink.PubSub.Tables.{Bytes, Table, find, find_conn, insert, update}
use pink.PubSub.{
  PubSub, NotifyType, noti_wait, Result, count_in, client_channel_size, subscribe_in,
  subscribe_loop, subscribe, move_conn_in,
}

find_conn-concat : (c : ℕ) (v : List ℕ) → find_conn c (v ++ c ∷ []) ≡ true
unfolding find_conn
find_conn-concat c [] = ground arith
find_conn-concat c (x ∷ v) = ground (arith, find_conn-concat c v)

count_in-insert :
    (c : ℕ) (k : Bytes) (t : Table) → count_in c (insert k (c ∷ []) t) ≡ count_in c t + 1
unfolding count_in insert find_conn
count_in-insert c k [] = ground arith
count_in-insert c k ((j, v) ∷ t) = ground (arith, count_in-insert c k t)

count_in-update :
    (c : ℕ) (k : Bytes) (v w : List ℕ) (t : Table)
    → find k t ≡ some v
    → find_conn c v ≡ false
    → find_conn c w ≡ true
    → count_in c (update k w t) ≡ count_in c t + 1
unfolding count_in find update
count_in-update c k v w [] e h g = cc
count_in-update c k v w ((j, u) ∷ t) e h g = ground (arith, count_in-update c k v w t)

-- A channel adds one to the table's count exactly when it adds one to the answer.
subscribe_in-count :
    (t : Table) (c : ℕ) (k : Bytes) (n : ℕ)
    → (m : ℕ) × ((subscribe_in t c k (pos n)).1 ≡ pos m)
      × (m + count_in c t ≡ n + count_in c (subscribe_in t c k (pos n)).0)
unfolding subscribe_in
subscribe_in-count t c k n = elim (Option-cases (find k t)) [
  | inl e ↦ (n + 1, ground (arith, e), ground (arith, e, count_in-insert c k t))
  | inr (v, e) ↦ elim (Bool-cases (find_conn c v)) [
    | inl there ↦ (n, ground (arith, e, there), ground (arith, e, there))
    | inr new ↦ (
      n + 1,
      ground (arith, e, new),
      ground (arith, e, new, count_in-update c k v (v ++ c ∷ []) t e new (find_conn-concat c v)),
    )
  ]
]

-- The last count of an answer, or `n`.
abbrev pub last_count : ℤ → Result → ℤ
last_count n [] = n
last_count n ((k, m) ∷ r) = last_count m r

last_count-concat : (n : ℤ) (r : Result) (k : Bytes) (m : ℤ) → last_count n (r ++ (k, m) ∷ []) ≡ m
last_count-concat n [] k m = refl
last_count-concat n ((j, i) ∷ r) k m = last_count-concat i r k m

subscribe_loop-cons :
    (k : Bytes) (ks : List Bytes) (s : PubSub) (c : ℕ) (pattern : Bool) (n m : ℤ) (r : Result)
    → (subscribe_in s.pubsub_pattern c k n).1 ≡ m
    → subscribe_loop s c (k ∷ ks) pattern n r
      ≡ subscribe_loop
          (record s { pubsub_pattern = (subscribe_in s.pubsub_pattern c k n).0 })
          c
          ks
          pattern
          m
          (r ++ (k, m) ∷ [])
unfolding subscribe_loop
subscribe_loop-cons k ks s c pattern n m r e =
    ap
      (λ z.
        subscribe_loop (record s { pubsub_pattern = (subscribe_in s.pubsub_pattern c k n).0 }) c ks
          pattern z (r ++ (k, z) ∷ []))
      e

subscribe_loop-count :
    (channels : List Bytes) (s : PubSub) (c : ℕ) (pattern : Bool) (n first : ℕ) (r : Result)
    → n ≡ client_channel_size s c
    → last_count (pos first) r ≡ pos n
    → last_count (pos first) (subscribe_loop s c channels pattern (pos n) r).1
      ≡ pos (client_channel_size (subscribe_loop s c channels pattern (pos n) r).0 c)
unfolding subscribe_loop client_channel_size
subscribe_loop-count [] s c pattern n first r h e = ground (arith, h, e)
subscribe_loop-count (k ∷ channels) s c pattern n first r h e =
    let (m, answer, counts) = subscribe_in-count s.pubsub_pattern c k n in
    let t = (subscribe_in s.pubsub_pattern c k (pos n)).0 in
    rw (subscribe_loop-cons k channels s c pattern (pos n) (pos m) r answer) (
      subscribe_loop-count channels (record s { pubsub_pattern = t }) c pattern m first
        (r ++ (k, pos m) ∷ []) (omega (arith, counts, h))
        (last_count-concat (pos first) r k (pos m)))

client_channel_size-move_conn_in :
    (fd : ℕ → ℕ) (s : PubSub) (c : ℕ) (n : NotifyType)
    → client_channel_size (move_conn_in fd s c n) c ≡ client_channel_size s c
unfolding client_channel_size move_conn_in
client_channel_size-move_conn_in fd s c n = refl

-- The last count that `Subscribe` answers with is the number of entries of both tables that hold the
-- connection, in either mode; with no channel it is the number before, and nothing is answered.
pub subscribe-client_channel_size :
    (fd : ℕ → ℕ) (s : PubSub) (conn : ℕ) (channels : List Bytes) (pattern : Bool)
    → last_count (pos (client_channel_size s conn)) (subscribe fd s conn channels pattern).1
      ≡ pos (client_channel_size (subscribe fd s conn channels pattern).0 conn)
unfolding subscribe
subscribe-client_channel_size fd s conn channels pattern =
    subscribe_loop-count channels _ conn pattern (client_channel_size s conn)
      (client_channel_size s conn) [] (entered (client_channel_size s conn == 0)) refl
  where
    entered :
        (b : Bool)
        → client_channel_size s conn
          ≡ client_channel_size (if b then move_conn_in fd s conn noti_wait else s) conn
    entered true = sym (client_channel_size-move_conn_in fd s conn noti_wait)
    entered false = refl
