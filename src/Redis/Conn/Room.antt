-- ===== src/Redis/Conn/Room.antt =====
-- How much `GetRequest` asks `read` for, against the room in the buffer.
use pink.Base.{
  ℕ, ◌+◌, ◌-◌, ◌*◌, ◌/◌, ◌%◌, ◌^◌, ◌≤◌, ◌<◌, ◌≡◌, refl, Bool, true, Option, none, some, ltb,
  if◌then◌else◌, ℤ, pos, ltb_ℤ, arith, if-elim, pos_part, ◌+ℤ◌,
}
use pink.Redis.Conn.{
  RedisConn, redis_max_message, redis_iobuf_len, redis_mbulk_big_arg, to_size, plan_read, reserve,
  try_resize_buffer,
}

-- The room in the buffer, if it was given.
abbrev pub HasRoom : {C : Type 0} → ℕ → RedisConn C → Option (RedisConn C) → Type 0
HasRoom n c none = Unit
HasRoom n c (some d) =
    (c.next_read_pos + n ≤ d.rbuf_len)
    × (d.rbuf_len ≤ c.rbuf_max_len)
    × (d.next_read_pos ≡ c.next_read_pos)
    × (c.rbuf_len ≤ d.rbuf_len)

-- If what has been read is within the buffer, the buffer within its limit and the limit at most
-- 2^28, and the bulk that is read is not negative and shorter than 2^31 - 2^28 bytes, then the
-- buffer that `GetRequest` gets, if it gets one, holds all that it asks `read` for behind what is
-- there, stays within its limit and is not shorter than before.
pub reserve-HasRoom :
    {C : Type 0} (realloc : ℕ → Bool) (c : RedisConn C) (n : ℕ)
    → c.next_read_pos ≤ c.rbuf_len
    → c.rbuf_len ≤ c.rbuf_max_len
    → c.rbuf_max_len ≤ redis_max_message
    → c.bulk_len ≡ pos n
    → n < 2 ^ 31 - 2 ^ 28
    → HasRoom (to_size (plan_read c).1) c (reserve realloc (plan_read c).0 c)
unfolding plan_read reserve
reserve-HasRoom realloc c n fits bounded limit bulk short = ground (arith, bulk)

-- Between reads, with a buffer that is not empty and at most 2^28 bytes long, in a bulk whose length
-- has bit 31 set, the buffer does not grow, and the count for `read` is a negative `int` made a
-- `size_t`, at least 2^64 - 2^31.
pub reserve-wraps :
    {C : Type 0} (realloc : ℕ → Bool) (c : RedisConn C) (n : ℕ)
    → c.next_read_pos ≡ 0
    → 0 < c.rbuf_len
    → c.rbuf_len ≤ redis_max_message
    → c.bulk_len ≡ pos n
    → 2 ^ 31 ≤ n % 2 ^ 32
    → (reserve realloc (plan_read c).0 c ≡ some c) × (2 ^ 64 - 2 ^ 31 ≤ to_size (plan_read c).1)
unfolding plan_read reserve
reserve-wraps realloc c n start some_room limit bulk bit = ground (arith, start, bulk)

-- If what has been read is within the buffer, `TryResizeBuffer` keeps it within the buffer, and
-- never makes the buffer longer.
pub try_resize_buffer-fits :
    {C : Type 0} (idletime : ℤ) (c : RedisConn C)
    → c.next_read_pos ≤ c.rbuf_len
    → let d = try_resize_buffer idletime c in
      (d.next_read_pos ≤ d.rbuf_len)
      × (d.rbuf_len ≤ c.rbuf_len)
      × (d.next_read_pos ≡ c.next_read_pos)
unfolding try_resize_buffer
try_resize_buffer-fits {C} idletime c fits =
    let size = (c.next_read_pos + redis_iobuf_len - 1) / redis_iobuf_len * redis_iobuf_len in
    let P : RedisConn C → Type 0 = λ d.
      (d.next_read_pos ≤ d.rbuf_len)
      × (d.rbuf_len ≤ c.rbuf_len)
      × (d.next_read_pos ≡ c.next_read_pos) in
    if-elim P (ltb redis_mbulk_big_arg c.rbuf_len)
      (λ _.
        if-elim P
          (if ltb 2 (c.rbuf_len / pos_part (c.msg_peak +ℤ pos 1))
            then true
            else ltb_ℤ (pos 2) idletime)
          (λ _.
            if-elim
              (λ n. (c.next_read_pos ≤ n) × (n ≤ c.rbuf_len) × (c.next_read_pos ≡ c.next_read_pos))
              (ltb size c.rbuf_len) (λ less. (omega arith, ground arith, refl))
              (λ _. (fits, omega arith, refl)))
          (λ _. (fits, omega arith, refl)))
      (λ _. (fits, omega arith, refl))
