-- ===== src/PubSub/Delivery.antt =====
-- pink/src/pink_pubsub.cc: the delivery of a message in `ThreadMain`. `WriteResp` with `SendReply` of a
-- connection, and `stringmatchlen`, are parameters.
mod Tests
use pink.Base.{
  ℕ, zero, suc, ◌+◌, Bool, true, false, List, [], ◌∷◌, ◌++◌, Option, none, some, if◌then◌else◌,
  get_elem?, length, ltb,
}
use pink.PubSub.Tables.{Bytes, Table, same, find, update, erase_first}
use pink.PubSub.{PubSub, del_event, mod_event, close_fd, call, erase_handle, is_ready}
use pink.PubSub.Publish.{construct_publish_resp}
use pink.Pb.Conn.{WriteStatus, write_half, write_all, write_error}

-- The reference `it->second[i]`.
pub record Slot : Type 0 where
  pub in_pattern : Bool
  pub key : Bytes
  pub index : ℕ

abbrev table_of : Bool → PubSub → Table
table_of true s = s.pubsub_pattern
table_of false s = s.pubsub_channel

abbrev set_table : Bool → Table → PubSub → PubSub
set_table true t s = record s { pubsub_pattern = t }
set_table false t s = record s { pubsub_channel = t }

-- The entries of a key.
unfoldable pub entries : Bytes → Table → List ℕ
entries k t = elim (find k t) [ none ↦ [] | some v ↦ v ]

-- The connection that the reference stands for now; none past the end of the vector.
unfoldable pub referred : PubSub → Slot → Option ℕ
referred s r = get_elem? (entries r.key (table_of r.in_pattern s)) r.index

abbrev keys : Table → List Bytes
keys [] = []
keys ((k, v) ∷ t) = k ∷ keys t

-- `RemoveConn` on the reference, in one table: the reference is read again in each vector.
unfoldable pub remove_referred : Bool → Slot → List Bytes → PubSub → Option PubSub
remove_referred which r [] s = some s
remove_referred which r (k ∷ ks) s = elim (referred s r) [
  | none ↦ none
  | some c ↦
      let t = table_of which s in
      remove_referred which r ks (set_table which (update k (erase_first c (entries k t)) t) s)
]

-- The rest of `MoveConnOut`, and `CloseFd`, with the reference read again.
unfoldable pub forget_referred : (ℕ → ℕ) → Slot → PubSub → Option PubSub
forget_referred fd r s = elim (referred s r) [
  | none ↦ none
  | some c ↦
      let t = call s (del_event (fd c)) in
      some (call (record t { conns = erase_handle (fd c) t.conns }) (close_fd (fd c)))
]

unfoldable pub move_referred_out : (ℕ → ℕ) → Slot → PubSub → Option PubSub
move_referred_out fd r s = elim (remove_referred true r (keys s.pubsub_pattern) s) [
  | none ↦ none
  | some t ↦ elim (remove_referred false r (keys t.pubsub_channel) t) [
    | none ↦ none
    | some u ↦ forget_referred fd r u
  ]
]

-- What a status of `SendReply` leads to; none is a null connection.
unfoldable pub on_status :
    {W : Type 0} → (ℕ → ℕ) → Slot → ℕ → WriteStatus × W → PubSub → ℕ → Option (PubSub × ℕ × W)
on_status fd r c (write_half, w) s receivers = some (call s (mod_event (fd c)), receivers, w)
on_status fd r c (write_all, w) s receivers = some (s, receivers + 1, w)
on_status fd r c (write_error, w) s receivers = elim (move_referred_out fd r s) [
  | none ↦ none
  | some t ↦ some (t, receivers, w)
]

module _ {W : Type 0} (fd : ℕ → ℕ) (send : ℕ → Bytes → W → WriteStatus × W) where
  unfoldable pub deliver_to : Slot → Bytes → ℕ → PubSub → ℕ → W → Option (PubSub × ℕ × W)
  deliver_to r resp c s receivers w =
      if is_ready s (fd c)
      then on_status fd r c (send c resp w) s receivers
      else some (s, receivers, w)

  -- The loop over the vector of a key, whose size is read in each turn; each turn raises `i`.
  unfoldable pub deliver_loop :
      ℕ → Bool → Bytes → ℕ → Bytes → PubSub → ℕ → W → Option (PubSub × ℕ × W)
  deliver_loop zero which k i resp s receivers w = some (s, receivers, w)
  deliver_loop (suc fuel) which k i resp s receivers w =
      let r : Slot = record { in_pattern = which; key = k; index = i } in
      elim (referred s r) [
        | none ↦ some (s, receivers, w)
        | some c ↦ elim (deliver_to r resp c s receivers w) [
          | none ↦ none
          | some o ↦ deliver_loop fuel which k (i + 1) resp o.0 o.1 o.2
        ]
      ]

  -- The loop over the keys of a table that match the channel.
  unfoldable pub deliver_keys :
      (Bytes → Bool) → Bool → Bytes → Bytes → List Bytes → PubSub → ℕ → W → Option (PubSub × ℕ × W)
  deliver_keys matches which channel msg [] s receivers w = some (s, receivers, w)
  deliver_keys matches which channel msg (k ∷ ks) s receivers w =
      let v = entries k (table_of which s) in
      let resp = construct_publish_resp k channel msg which in
      let here =
        if matches k
        then deliver_loop (length v) which k 0 resp s receivers w
        else some (s, receivers, w) in
      elim here [ none ↦ none | some o ↦ deliver_keys matches which channel msg ks o.0 o.1 o.2 ]

  -- The channels and then the patterns; the count goes to `Publish`.
  unfoldable pub deliver_message :
      (Bytes → Bytes → Bool) → Bytes → Bytes → PubSub → W → Option (PubSub × ℕ × W)
  deliver_message stringmatchlen channel msg s w =
      elim (deliver_keys (same channel) false channel msg (keys s.pubsub_channel) s 0 w) [
        | none ↦ none
        | some o ↦
            deliver_keys (λ k. stringmatchlen k channel) true channel msg (keys o.0.pubsub_pattern)
              o.0 o.1 o.2
      ]
