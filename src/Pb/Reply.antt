-- ===== src/Pb/Reply.antt =====
-- pink/src/pb_conn.cc: the replies of `PbConn`, `WriteResp`, `SendReply` and the count of waiting replies.
use pink.Base.{
  ℕ, zero, suc, ◌+◌, ◌-◌, ◌%◌, ◌^◌, Bool, true, List, [], ◌∷◌, ◌++◌, Option, none, some, ltb, ◌==◌,
  if◌then◌else◌, length, drop, ℤ, pos, ◌+ℤ◌, ◌-ℤ◌, ltb_ℤ,
}
use pink.Pb.Frame.{Bytes, build_internal_tag}
use pink.Pb.Conn.{WriteStatus, write_half, write_all, write_error, Sent, again, failed, wrote}

-- `WriteBuf`, with the items of `queue_`, and `is_reply_`.
pub record WriteBuf : Type 0 where
  pub queue : List Bytes
  pub item_pos : ℕ
  pub is_reply : ℤ

abbrev pub empty_buf : WriteBuf
empty_buf = record { queue = []; item_pos = 0; is_reply = pos 0 }

unfoldable pub set_is_reply : Bool → WriteBuf → WriteBuf
set_is_reply reply b =
    let n = if reply then b.is_reply +ℤ pos 1 else b.is_reply -ℤ pos 1 in
    record b { is_reply = if ltb_ℤ n (pos 0) then pos 0 else n }

unfoldable pub write_resp : Bytes → WriteBuf → WriteBuf
write_resp resp b =
    set_is_reply true (record b { queue = b.queue ++ build_internal_tag resp ∷ resp ∷ [] })

-- How the loop over the bytes of one item ends: its last byte is sent, or `write` returned -1, with EAGAIN
-- or another errno, or 0.
pub data Stop : Type 0 where
  sent blocked broken stalled : Stop

module _ {W : Type 0} (write : Bytes → W → Sent × W) where
  -- What one turn of the loop does with the result of `write`: it ends, or the loop goes on.
  unfoldable pub wrote_some :
      Bytes
      → List Bytes
      → WriteBuf
      → Sent × W
      → (WriteBuf → W → Option (Stop × WriteBuf × W))
      → Option (Stop × WriteBuf × W)
  wrote_some item rest b (again, w) next = some (blocked, b, w)
  wrote_some item rest b (failed, w) next = some (broken, b, w)
  wrote_some item rest b (wrote zero, w) next = some (stalled, b, w)
  wrote_some item rest b (wrote (suc n), w) next =
      if (b.item_pos + suc n) == length item
      then some (sent, record b { queue = rest; item_pos = 0 }, w)
      else next (record b { item_pos = b.item_pos + suc n }) w

  -- `while (item_len - write_buf_.item_pos_ > 0)`; the difference is a `size_t`.
  unfoldable pub write_item : ℕ → Bytes → List Bytes → WriteBuf → W → Option (Stop × WriteBuf × W)
  write_item zero item rest b w = none
  write_item (suc fuel) item rest b w =
      if ltb 0 ((length item + 2 ^ 64 - b.item_pos) % 2 ^ 64)
      then wrote_some item rest b (write (drop b.item_pos item) w)
          (λ d w'. write_item fuel item rest d w')
      else some (sent, b, w)

  -- `while (!write_buf_.queue_.empty())`: the next turn after an item, or the status that is returned.
  unfoldable pub after_item :
      Option (Stop × WriteBuf × W)
      → (WriteBuf → W → Option (WriteStatus × WriteBuf × W))
      → Option (WriteStatus × WriteBuf × W)
  after_item none next = none
  after_item (some (sent, b, w)) next = next b w
  after_item (some (blocked, b, w)) next = some (write_half, b, w)
  after_item (some (broken, b, w)) next = some (write_error, b, w)
  after_item (some (stalled, b, w)) next = some (write_half, b, w)

  unfoldable pub reply_turn :
      List Bytes
      → WriteBuf
      → W
      → (WriteBuf → W → Option (WriteStatus × WriteBuf × W))
      → Option (WriteStatus × WriteBuf × W)
  reply_turn [] b w next = some (write_all, b, w)
  reply_turn (item ∷ rest) b w next = after_item (write_item (suc (length item)) item rest b w) next

  unfoldable pub reply_loop : ℕ → WriteBuf → W → Option (WriteStatus × WriteBuf × W)
  reply_loop zero b w = none
  reply_loop (suc fuel) b w = reply_turn b.queue b w (λ d w'. reply_loop fuel d w')

  -- A turn for each item, and one to see that the queue is empty.
  unfoldable pub send_reply : WriteBuf → W → Option (WriteStatus × WriteBuf × W)
  send_reply b w = reply_loop (suc (length b.queue)) b w
