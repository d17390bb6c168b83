-- ===== src/Redis/Conn/Tests.antt =====
-- The read buffer of `RedisConn` at concrete sizes.
use pink.Base.{ℕ, ◌-◌, ◌^◌, ◌≤◌, ◌≡◌, refl, Bool, true, false, some, pos, arith}
use pink.Redis.Stream.Phase.{Log}
use pink.Redis.Tests.{ready}
use pink.Redis.Conn.{RedisConn, redis_max_message, plan_read, reserve, to_size, try_resize_buffer}
use pink.Redis.Conn.Room.{HasRoom, reserve-HasRoom, reserve-wraps, try_resize_buffer-fits}

abbrev given : ℕ → Bool
given n = true

-- A buffer of 16 KB, half full, in a bulk of 20000 bytes.
abbrev half_full : RedisConn Log
half_full = record {
  rbuf_len = 16384;
  rbuf_max_len = redis_max_message;
  msg_peak = pos 8191;
  command_len = 8192;
  next_read_pos = 8192;
  bulk_len = pos 20000;
  is_reply = false;
  redis_parser = ready;
}

grown :
    reserve given (plan_read half_full).0 half_full ≡ some (record half_full { rbuf_len = 28192 })
unfolding reserve plan_read
grown = refl

reserve-HasRoom_example :
    HasRoom
      (to_size (plan_read half_full).1)
      half_full
      (reserve given (plan_read half_full).0 half_full)
reserve-HasRoom_example =
    reserve-HasRoom given half_full 20000 (omega arith) (omega arith) (omega arith) refl
      (omega arith)

-- Behind "*1\r\n$4294967295\r\n".
abbrev wide_bulk : RedisConn Log
wide_bulk = record half_full { next_read_pos = 0; bulk_len = pos 4294967295 }

reserve-wraps_example :
    (reserve given (plan_read wide_bulk).0 wide_bulk ≡ some wide_bulk)
    × (2 ^ 64 - 2 ^ 31 ≤ to_size (plan_read wide_bulk).1)
reserve-wraps_example =
    reserve-wraps given wide_bulk 4294967295 refl (omega arith) (omega arith) refl (omega arith)

abbrev idle_conn : RedisConn Log
idle_conn = record half_full { rbuf_len = 65536 }

try_resize_buffer-fits_example :
    let d = try_resize_buffer (pos 3) idle_conn in
    (d.next_read_pos ≤ d.rbuf_len) × (d.rbuf_len ≤ 65536) × (d.next_read_pos ≡ 8192)
try_resize_buffer-fits_example = try_resize_buffer-fits (pos 3) idle_conn (omega arith)
