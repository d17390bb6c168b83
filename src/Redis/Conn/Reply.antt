-- ===== src/Redis/Conn/Reply.antt =====
-- pink/src/redis_conn.cc: `SendReply` with writev, and `WriteResp`. `easy_writev` of terark is a parameter.
pub mod Sending
mod Tests
use pink.Base.{
  ℕ, zero, suc, ◌+◌, Bool, true, false, List, [], ◌∷◌, ◌++◌, Option, none, some, ltb, ◌==◌,
  if◌then◌else◌, length, not, ◌&&◌,
}
use pink.Redis.Chars.{Bytes}
use pink.Pb.Conn.{WriteStatus, write_half, write_all, write_error}

-- The results of `easy_writev`: a count, or -1 with EAGAIN, with EDEADLK, or with another errno.
pub data Writev : Type 0 where
  wrote : ℕ → Writev
  again deadlock broken : Writev

-- `iov` is the vector with what is left of each item, and `started` says that `iov_idx_` is not negative.
pub record Replies : Type 0 where
  pub response : List Bytes
  pub iov : List Bytes
  pub started : Bool
  pub num_retry : ℕ
  pub is_reply : Bool

-- The items that are not empty.
unfoldable pub non_empty : List Bytes → List Bytes
non_empty [] = []
non_empty (x ∷ xs) = let rest = non_empty xs in if length x == 0 then rest else x ∷ rest

-- `0 == iov[num-1].iov_len`.
unfoldable pub last_sent : List Bytes → Bool
last_sent [] = true
last_sent (x ∷ []) = length x == 0
last_sent (x ∷ y ∷ ys) = last_sent (y ∷ ys)

-- The bytes of a vector.
unfoldable pub all_bytes : List Bytes → Bytes
all_bytes [] = []
all_bytes (x ∷ xs) = x ++ all_bytes xs

abbrev cleared : Replies → Replies
cleared c = record c { response = []; iov = []; started = false }

-- Behind the loop, by errno.
unfoldable pub on_error : {W : Type 0} → Writev → Replies → W → WriteStatus × Replies × W
on_error (wrote n) c w = (write_half, c, w)
on_error again c w = (write_half, record c { num_retry = 0 }, w)
on_error deadlock c w =
    if ltb c.num_retry 5
    then (write_half, record c { num_retry = c.num_retry + 1 }, w)
    else (write_error, record c { num_retry = 0 }, w)
on_error broken c w = (write_error, record c { num_retry = 0 }, w)

-- A round, by the result of `easy_writev`; `rest` is the next one.
unfoldable pub by_result :
    {W : Type 0}
    → (Replies → W → Option (WriteStatus × Replies × W))
    → Writev
    → Replies
    → W
    → Option (WriteStatus × Replies × W)
by_result rest (wrote zero) c w = some (on_error (wrote 0) c w)
by_result rest (wrote (suc n)) c w = rest c w
by_result rest r c w = some (on_error r c w)

unfoldable pub after_writev :
    {W : Type 0}
    → (Replies → W → Option (WriteStatus × Replies × W))
    → Replies
    → Writev × List Bytes × W
    → Option (WriteStatus × Replies × W)
after_writev rest c (r, iov, w) =
    let more = by_result rest r (record c { iov = iov }) w in
    if last_sent iov then some (write_all, cleared c, w) else more

module _ {W : Type 0} (writev : List Bytes → W → Writev × List Bytes × W) where
  -- The `do` loop, with fuel.
  unfoldable pub writev_loop : ℕ → Replies → W → Option (WriteStatus × Replies × W)
  writev_loop zero c w = none
  writev_loop (suc fuel) c w = after_writev (writev_loop fuel) c (writev c.iov w)

  -- Each round but the last sends a byte.
  unfoldable pub send_iov : Replies → W → Option (WriteStatus × Replies × W)
  send_iov c w = writev_loop (suc (length (all_bytes c.iov))) c w

  -- The vector of the items that are not empty, if there is one.
  unfoldable pub send_items : Replies → List Bytes → W → Option (WriteStatus × Replies × W)
  send_items c [] w = some (write_all, c, w)
  send_items c (x ∷ xs) w = send_iov (record c { iov = x ∷ xs; started = true }) w

  unfoldable pub send_started : Bool → Replies → W → Option (WriteStatus × Replies × W)
  send_started true c w = send_iov c w
  send_started false c w = send_items c (non_empty c.response) w

  -- `SendReply`.
  unfoldable pub send_reply : Replies → W → Option (WriteStatus × Replies × W)
  send_reply c w =
      if length c.response == 0 then some (write_all, c, w) else send_started c.started c w

-- `WriteResp`. When `response_` has no capacity left, push_back moves its items; none is when `iov_` points
-- into them then, so that it dangles.
unfoldable pub write_resp : Bool → Bytes → Replies → Option Replies
write_resp has_capacity resp c =
    if not has_capacity && c.started
    then none
    else some (record c { response = c.response ++ resp ∷ []; is_reply = true })
