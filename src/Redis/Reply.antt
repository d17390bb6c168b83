-- ===== src/Redis/Reply.antt =====
-- pink/src/redis_cli.cc: the reader of replies. `read` of the socket is a parameter.
pub mod Items
pub mod Whole
pub mod Pipeline
pub mod Cut
pub mod Ends
pub mod Tests
use pink.Base.{
  ℕ, zero, suc, ◌+◌, ◌-◌, ◌*◌, ◌%◌, ◌^◌, Bool, true, false, ◌&&◌, ◌||◌, List, [], ◌∷◌, ◌++◌, Option,
  none, some, ltb, leb, ◌==◌, if◌then◌else◌, length, take, drop,
}
use mathlib.Core.Option
use pink.Redis.Chars.{Bytes, Argv}
use pink.Redis.Conn.{redis_iobuf_len}
use pink.Cli.{
  eintr, eagain, other_errno, ReadResult, read_failed, read_bytes, Status, ok, timeout, io_error,
}

-- REDIS_STATUS as the functions return it. `throws` is std::length_error, and `no_fuel` is the end of the
-- model's fuel. `overrun` is where ProcessBulkItem takes bytes that have not come: these are what is left in
-- the array from before, which the model does not have, and `rbuf_offset_` gets negative. The model stops there,
-- and no theorem says anything of this case.
pub data ReplyStatus : Type 0 where
  redis_etimeout redis_eread_null redis_eread redis_eparse_type redis_ok redis_half : ReplyStatus
  throws overrun no_fuel : ReplyStatus

-- `rbuf` is the `rbuf_offset_` bytes at `rbuf_pos_`; `elements` is the unsigned value of the int.
pub record RedisCli : Type 0 where
  pub argv : Argv
  pub rbuf : Bytes
  pub elements : ℕ

-- `elements_--`.
abbrev pub one_less : ℕ → ℕ
one_less n = (n + 2 ^ 32 - 1) % 2 ^ 32

-- `seekNewline`: where the first "\r\n" is.
unfoldable pub seek_newline : Bytes → Option ℕ
seek_newline [] = none
seek_newline (a ∷ []) = none
seek_newline (a ∷ b ∷ s) =
    let later = Option.map suc (seek_newline (b ∷ s)) in
    if a == 13 && b == 10 then some 0 else later

-- The loop of `readLongLong`: `v` has 64 bits, and none is an unexpected byte.
unfoldable pub read_digits : ℕ → Bytes → Option ℕ
read_digits v [] = some v
read_digits v (c ∷ s) =
    let later = read_digits ((v * 10 + (c - b'0')) % 2 ^ 64) s in
    if c == 13 then some v else if leb b'0' c && ltb c (b'0' + 10) then later else none

-- The result as 64 bits.
unfoldable pub signed_value : Bool → Option ℕ → ℕ
signed_value minus none = 2 ^ 64 - 1
signed_value minus (some v) = if minus then (2 ^ 64 - v) % 2 ^ 64 else v

unfoldable pub read_long_long : Bytes → ℕ
read_long_long [] = 0
read_long_long (c ∷ s) =
    if c == b'-'
    then signed_value true (read_digits 0 s)
    else if c == b'+'
    then signed_value false (read_digits 0 s)
    else signed_value false (read_digits 0 (c ∷ s))

-- `readLongLong` in an int.
unfoldable pub read_int : Bytes → ℕ
read_int s = read_long_long s % 2 ^ 32

unfoldable pub line_of : Bytes → Option ℕ → Option (Bytes × Bytes)
line_of buf none = none
line_of buf (some len) = some (take len buf, drop (len + 2) buf)

-- `ReadLine`: the line, and what is behind its "\r\n".
unfoldable pub read_line : Bytes → Option (Bytes × Bytes)
read_line buf = line_of buf (seek_newline buf)

-- `ProcessLineItem` on the result of `ReadLine`.
unfoldable pub line_item : RedisCli → Option (Bytes × Bytes) → ReplyStatus × RedisCli
line_item c none = (redis_half, c)
line_item c (some (line, rest)) =
    (redis_ok, record c { argv = c.argv ++ line ∷ []; rbuf = rest; elements = one_less c.elements })

unfoldable pub process_line_item : RedisCli → ReplyStatus × RedisCli
process_line_item c = line_item c (read_line c.rbuf)

-- `ProcessBulkItem` behind the line of the length.
unfoldable pub bulk_body : RedisCli → ℕ → ℕ → ReplyStatus × RedisCli
bulk_body c bytelen len =
    if len == 2 ^ 32 - 1
    then (redis_ok, record c { rbuf = drop bytelen c.rbuf; elements = one_less c.elements })
    else if leb (2 ^ 31) ((len + 2) % 2 ^ 32) || leb ((len + 2) % 2 ^ 32) (length c.rbuf)
    then (if leb (2 ^ 31) len
        then (throws, c)
        else if ltb (length c.rbuf) (bytelen + len + 2)
        then (overrun, c)
        else (
          redis_ok,
          record c {
            argv = c.argv ++ take len (drop bytelen c.rbuf) ∷ [];
            rbuf = drop (bytelen + len + 2) c.rbuf;
            elements = one_less c.elements;
          },
        ))
    else (redis_half, c)

-- `ProcessBulkItem` on the result of `seekNewline`.
unfoldable pub bulk_item : RedisCli → Option ℕ → ReplyStatus × RedisCli
bulk_item c none = (redis_half, c)
bulk_item c (some s) = bulk_body c (s + 2) (read_int c.rbuf)

unfoldable pub process_bulk_item : RedisCli → ReplyStatus × RedisCli
process_bulk_item c = bulk_item c (seek_newline c.rbuf)

-- `ProcessMultiBulkItem` on the result of `ReadLine`.
unfoldable pub multi_bulk_header : RedisCli → Option (Bytes × Bytes) → ReplyStatus × RedisCli
multi_bulk_header c none = (redis_half, c)
multi_bulk_header c (some (line, rest)) =
    (redis_ok, record c { rbuf = rest; elements = read_int c.rbuf })

unfoldable pub process_multi_bulk_item : RedisCli → ReplyStatus × RedisCli
process_multi_bulk_item c = multi_bulk_header c (read_line c.rbuf)

-- `GetReplyFromReader` behind `ReadBytes(1)`.
unfoldable pub reply_of_type : ℕ → RedisCli → ReplyStatus × RedisCli
reply_of_type t c =
    if t == b'-' || t == b'+' || t == b':'
    then process_line_item c
    else if t == b'$'
    then process_bulk_item c
    else if t == b'*'
    then process_multi_bulk_item c
    else (redis_eparse_type, c)

unfoldable pub get_reply_from_reader : RedisCli → ReplyStatus × RedisCli
get_reply_from_reader c = elim c.rbuf [
  | [] ↦ (redis_half, c)
  | t ∷ rest ↦ reply_of_type t (record c { rbuf = rest })
]

-- `BufferRead` on the result of `read`: none when bytes have come.
unfoldable pub filled :
    {W : Type 0}
    → (W → Option ReplyStatus × RedisCli × W)
    → RedisCli
    → ReadResult × W
    → Option ReplyStatus × RedisCli × W
filled again c (read_failed eintr, w) = again w
filled again c (read_failed eagain, w) = (some redis_etimeout, c, w)
filled again c (read_failed other_errno, w) = (some redis_eread, c, w)
filled again c (read_bytes [], w) = (some redis_eread_null, c, w)
filled again c (read_bytes (x ∷ xs), w) = (none, record c { rbuf = c.rbuf ++ x ∷ xs }, w)

-- What `GetReply` does with the results of the reader and of `BufferRead`.
unfoldable pub after_reader :
    {W : Type 0}
    → (ReplyStatus → RedisCli → W → ReplyStatus × RedisCli × W)
    → W
    → ReplyStatus × RedisCli
    → ReplyStatus × RedisCli × W
after_reader again w (redis_ok, c) = again redis_ok c w
after_reader again w (redis_half, c) = again redis_half c w
after_reader again w (s, c) = (s, c, w)

unfoldable pub after_read :
    {W : Type 0}
    → (ReplyStatus → RedisCli → W → ReplyStatus × RedisCli × W)
    → Option ReplyStatus × RedisCli × W
    → ReplyStatus × RedisCli × W
after_read again (some s, c, w) = (s, c, w)
after_read again (none, c, w) = after_reader again w (get_reply_from_reader c)

unfoldable pub is_half : ReplyStatus → Bool
is_half redis_half = true
is_half s = false

-- The switch of `Recv`; none where the code throws or takes bytes that have not come.
unfoldable pub status_of : ReplyStatus → Option Status
status_of redis_ok = some ok
status_of redis_etimeout = some timeout
status_of redis_eread_null = some io_error
status_of redis_eread = some io_error
status_of redis_eparse_type = some io_error
status_of redis_half = some io_error
status_of s = none

-- `budget` bounds the bytes and the interruptions that are to come.
module _ {W : Type 0} (read : ℕ → W → ReadResult × W) (budget : W → ℕ) where
  -- The loop of `BufferRead`.
  unfoldable pub buffer_loop : ℕ → RedisCli → W → Option ReplyStatus × RedisCli × W
  buffer_loop zero c w = (some no_fuel, c, w)
  buffer_loop (suc fuel) c w =
      filled (buffer_loop fuel c) c (read (redis_iobuf_len - length c.rbuf) w)

  unfoldable pub buffer_read : RedisCli → W → Option ReplyStatus × RedisCli × W
  buffer_read c w = buffer_loop (budget w + 1) c w

  -- The loop of `GetReply`. Each round but the last takes a byte from the buffer.
  unfoldable pub get_reply_loop : ℕ → ReplyStatus → RedisCli → W → ReplyStatus × RedisCli × W
  get_reply_loop zero result c w = (no_fuel, c, w)
  get_reply_loop (suc fuel) result c w =
      if ltb 0 c.elements && ltb c.elements (2 ^ 31)
      then after_read (get_reply_loop fuel)
          (if length c.rbuf == 0 || is_half result then buffer_read c w else (none, c, w))
      else (result, c, w)

  unfoldable pub get_reply : RedisCli → W → ReplyStatus × RedisCli × W
  get_reply c w =
      get_reply_loop (length c.rbuf + budget w + 1) redis_ok (record c { elements = 1 }) w

  -- `Recv` up to its switch.
  unfoldable pub recv_reply : RedisCli → W → ReplyStatus × RedisCli × W
  recv_reply c w = get_reply (record c { argv = [] }) w
