-- ===== src/Redis/Conn.antt =====
-- pink/src/redis_conn.cc: the read buffer of `RedisConn` and `GetRequest`. The socket, `realloc` and the
-- service behind the callbacks are parameters.
use pink.Base.{
  ℕ, zero, suc, ◌+◌, ◌-◌, ◌*◌, ◌/◌, ◌%◌, ◌^◌, Bool, true, false, List, [], ◌∷◌, Option, none, some,
  ltb, leb, ◌==◌, if◌then◌else◌, length, ℤ, pos, negsuc, ◌+ℤ◌, ◌-ℤ◌, ltb_ℤ, eqb_ℤ, pos_part,
}
use pink.Redis.Chars.{Bytes}
use pink.Redis.State.{
  Run, ok, ◌>>=◌, ParserStatus, parser_none, init_done, half, done, error, ParserError, parser_ok,
  init_error, full_error, proto_error, deal_error, complete_error, Parser,
}
use pink.Redis.Parser.{StringToLong, process_input_buffer}
use pink.Pb.Conn.{ReadStatus, Received}
use pink.Pb.Conn
pub mod Reply
pub mod Room
pub mod Setup
mod Tests

abbrev pub redis_iobuf_len : ℕ
redis_iobuf_len = 16384

abbrev pub redis_max_message : ℕ
redis_max_message = 2 ^ 28

abbrev pub redis_mbulk_big_arg : ℕ
redis_mbulk_big_arg = 1024 * 32

-- `next_read_pos` is `last_read_pos_ + 1`.
pub record RedisConn (C : Type 0) : Type 0 where
  pub rbuf_len : ℕ
  pub rbuf_max_len : ℕ
  pub msg_peak : ℤ
  pub command_len : ℕ
  pub next_read_pos : ℕ
  pub bulk_len : ℤ
  pub is_reply : Bool
  pub redis_parser : Parser C

-- A `long` made an `int`.
abbrev pub to_int : ℤ → ℤ
to_int (pos n) =
    if ltb (n % 2 ^ 32) (2 ^ 31) then pos (n % 2 ^ 32) else negsuc (2 ^ 32 - 1 - n % 2 ^ 32)
to_int (negsuc n) =
    if ltb (n % 2 ^ 32) (2 ^ 31) then negsuc (n % 2 ^ 32) else pos (2 ^ 32 - 1 - n % 2 ^ 32)

-- An `int` made a `size_t`.
abbrev pub to_size : ℤ → ℕ
to_size (pos n) = n
to_size (negsuc n) = 2 ^ 64 - 1 - n

unfoldable pub parse_redis_parser_status : ParserStatus → ParserError → ReadStatus
parse_redis_parser_status init_done e = Conn.read_ok
parse_redis_parser_status half e = Conn.read_half
parse_redis_parser_status done e = Conn.read_all
parse_redis_parser_status error parser_ok = Conn.read_error
parse_redis_parser_status error init_error = Conn.read_error
parse_redis_parser_status error full_error = Conn.full_error
parse_redis_parser_status error proto_error = Conn.parse_error
parse_redis_parser_status error deal_error = Conn.deal_error
parse_redis_parser_status error complete_error = Conn.read_error
parse_redis_parser_status parser_none e = Conn.read_error

-- `new_size` and `remain`, before the buffer grows.
unfoldable pub plan_read : {C : Type 0} → RedisConn C → ℤ × ℤ
plan_read c =
    let remain = pos c.rbuf_len -ℤ pos c.next_read_pos in
    if eqb_ℤ remain (pos 0)
    then (pos (c.rbuf_len + redis_iobuf_len), remain +ℤ pos redis_iobuf_len)
    else (if ltb_ℤ remain c.bulk_len
        then (to_int (pos c.next_read_pos +ℤ c.bulk_len), to_int c.bulk_len)
        else (pos 0, remain))

abbrev pub min_ℕ : ℕ → ℕ → ℕ
min_ℕ a b = if ltb b a then b else a

abbrev pub max_ℕ : ℕ → ℕ → ℕ
max_ℕ a b = if ltb a b then b else a

-- `if (new_size > rbuf_len_)`; `none` where the function returns kFullError.
unfoldable pub reserve : {C : Type 0} → (ℕ → Bool) → ℤ → RedisConn C → Option (RedisConn C)
reserve realloc new_size c =
    if ltb_ℤ (pos c.rbuf_len) new_size
    then (if ltb_ℤ (pos c.rbuf_max_len) new_size
        then none
        else (let size = min_ℕ c.rbuf_max_len (max_ℕ (c.rbuf_len * 3 / 2) (pos_part new_size)) in
            if realloc size then some (record c { rbuf_len = size }) else none))
    else some c

-- Behind `ProcessInputBuffer`.
unfoldable pub after_parse :
    {C : Type 0} → (C → Bool) → RedisConn C → Parser C → ReadStatus × RedisConn C
after_parse has_response c p =
    let status = parse_redis_parser_status p.status_code p.error_code in
    let d = record c {
      redis_parser = p;
      is_reply = if has_response p.data_ then true else c.is_reply;
    } in
    (
      status,
      elim status [
        | Conn.read_all ↦ record d { command_len = 0; next_read_pos = 0; bulk_len = p.bulk_len }
        | Conn.read_half ↦ record d { next_read_pos = 0; bulk_len = p.bulk_len }
        | _ ↦ d
      ],
    )

module _ {C W : Type 0} (string2l : StringToLong) (has_response : C → Bool) where
  -- What `GetRequest` does with the result of `read`.
  unfoldable pub received : RedisConn C → Received × W → Run (ReadStatus × RedisConn C × W)
  received c (Conn.Received.again, w) = ok (Conn.read_half, c, w)
  received c (Conn.Received.failed, w) = ok (Conn.read_error, c, w)
  received c (Conn.closed, w) = ok (Conn.read_close, c, w)
  received c (Conn.got bs, w) =
      let next = c.next_read_pos + length bs in
      let d = record c {
        next_read_pos = next;
        msg_peak = pos next -ℤ pos 1;
        command_len = c.command_len + length bs;
      } in
      if leb d.rbuf_max_len d.command_len
      then ok (Conn.full_error, d, w)
      else (process_input_buffer string2l d.redis_parser bs >>= λ p.
          (let (status, e) = after_parse has_response d p in ok (status, e, w)))

  -- `GetRequest`.
  unfoldable pub get_request :
      (ℕ → W → Received × W) → (ℕ → Bool) → RedisConn C → W → Run (ReadStatus × RedisConn C × W)
  get_request read realloc c w =
      let (new_size, remain) = plan_read c in
      elim (reserve realloc new_size c) [
        | none ↦ ok (Conn.full_error, c, w)
        | some d ↦ received d (read (to_size remain) w)
      ]

-- `TryResizeBuffer`, with the seconds since the last interaction.
unfoldable pub try_resize_buffer : {C : Type 0} → ℤ → RedisConn C → RedisConn C
try_resize_buffer idletime c =
    let wide = ltb_ℤ (pos 2) idletime in
    let loose = ltb 2 (c.rbuf_len / pos_part (c.msg_peak +ℤ pos 1)) in
    let new_size = (c.next_read_pos + redis_iobuf_len - 1) / redis_iobuf_len * redis_iobuf_len in
    if ltb redis_mbulk_big_arg c.rbuf_len
    then (if (if loose then true else wide)
        then record c {
          rbuf_len = if ltb new_size c.rbuf_len then new_size else c.rbuf_len;
          msg_peak = pos 0;
        }
        else c)
    else c
