-- ===== src/Pb/Conn.antt =====
-- pink/src/pb_conn.cc: `PbConn`. The socket is a parameter: `read` is asked for at most so many bytes.
use pink.Base.{
  ℕ, zero, suc, ◌+◌, ◌-◌, ◌*◌, ◌%◌, ◌^◌, Bool, true, false, [], ◌++◌, Option, none, some, ltb, ◌==◌,
  if◌then◌else◌, length, drop, ℤ, pos, eqb_ℤ,
}
use pink.Pb.Frame.{Bytes, ntohl_bytes}

pub data ReadStatus : Type 0 where
  read_half read_all read_error read_close full_error parse_error deal_error read_ok : ReadStatus

pub data WriteStatus : Type 0 where
  write_half write_all write_error : WriteStatus

-- The results of `read`: -1 with EAGAIN, -1 with another errno, 0, or the bytes.
pub data Received : Type 0 where
  again failed closed : Received
  got : Bytes → Received

-- The results of `write`: -1 with EAGAIN, -1 with another errno, or a count.
pub data Sent : Type 0 where
  again failed : Sent
  wrote : ℕ → Sent

pub data ConnStatus : Type 0 where
  header packet complete build_obuf write_obuf : ConnStatus

abbrev pub command_header_length : ℕ
command_header_length = 4

abbrev pub pb_iobuf_len : ℕ
pb_iobuf_len = 67108864

abbrev pub proto_max_message : ℕ
proto_max_message = 512 * 1024 * 1024

-- The fields that `GetRequest` uses. `rbuf` is the buffer up to `cur_pos_`, which is its length, and
-- `remain_packet_len` is the unsigned value of the `int32_t`; `no_rbuf` says that `rbuf_` is NULL.
pub record PbConn (C : Type 0) : Type 0 where
  pub header_len : ℕ
  pub rbuf : Bytes
  pub rbuf_len : ℕ
  pub no_rbuf : Bool
  pub remain_packet_len : ℕ
  pub conn_status : ConnStatus
  pub service : C

abbrev pub new_conn : {C : Type 0} → C → PbConn C
new_conn c = record {
  header_len = 2 ^ 32 - 1;
  rbuf = [];
  rbuf_len = pb_iobuf_len;
  no_rbuf = false;
  remain_packet_len = 0;
  conn_status = header;
  service = c;
}

-- The count that `read` gets for the body: the `int32_t` as a `size_t`.
abbrev pub read_count : ℕ → ℕ
read_count remain = if ltb remain (2 ^ 31) then remain else 2 ^ 64 - 2 ^ 32 + remain

-- One round of the loop: it goes on, or it returns.
pub data Round (S : Type 0) : Type 0 where
  go_on : S → Round S
  returns : ReadStatus → S → Round S

-- What a round does with the result of its `read`: the first four bytes, and the body.
unfoldable pub received_header : {C W : Type 0} → PbConn C → Received × W → Round (PbConn C × W)
received_header c (again, w) = returns read_half (c, w)
received_header c (failed, w) = returns read_error (c, w)
received_header c (closed, w) = returns read_close (c, w)
received_header c (got bs, w) =
    let d = record c { rbuf = c.rbuf ++ bs } in
    if length d.rbuf == command_header_length
    then go_on (
      record d {
        header_len = ntohl_bytes d.rbuf;
        remain_packet_len = ntohl_bytes d.rbuf;
        conn_status = packet;
      },
      w,
    )
    else returns read_half (d, w)

unfoldable pub received_packet : {C W : Type 0} → PbConn C → Received × W → Round (PbConn C × W)
received_packet c (again, w) = returns read_half (c, w)
received_packet c (failed, w) = returns read_error (c, w)
received_packet c (closed, w) = returns read_close (c, w)
received_packet c (got bs, w) =
    let d = record c {
      rbuf = c.rbuf ++ bs;
      remain_packet_len = (c.remain_packet_len + 2 ^ 32 - length bs) % 2 ^ 32;
    } in
    if d.remain_packet_len == 0
    then go_on (record d { conn_status = complete }, w)
    else returns read_half (d, w)

-- `deal` is the virtual `DealMessage`, given the body; `realloc` says whether the system has the memory.
module _ {C W : Type 0} (read : ℕ → W → Received × W) (deal : C → Bytes → C × ℤ)
    (realloc : ℕ → Bool) where
  unfoldable pub read_header : PbConn C → W → Round (PbConn C × W)
  read_header c w = received_header c (read (command_header_length - length c.rbuf) w)

  -- The buffer grows, or the message is too long. When `realloc` fails, `rbuf_` is NULL, and the old
  -- buffer, with the bytes in it, is lost; `cur_pos_` and `rbuf_len_` stay.
  unfoldable pub expand_rbuf : PbConn C → Option (PbConn C)
  expand_rbuf c =
      if ltb ((c.rbuf_len + 2 ^ 32 - command_header_length) % 2 ^ 32) c.header_len
      then (let new_size = (c.header_len + command_header_length) % 2 ^ 32 in
          if ltb new_size proto_max_message
          then (if realloc new_size
              then some (record c { rbuf_len = new_size; no_rbuf = false })
              else some (record c { no_rbuf = true }))
          else none)
      else some c

  unfoldable pub read_packet : PbConn C → W → Round (PbConn C × W)
  read_packet c w = received_packet c (read (read_count c.remain_packet_len) w)

  -- After `full_error` the thread closes the connection.
  unfoldable pub packet_round : PbConn C → W → Round (PbConn C × W)
  packet_round c w = elim (expand_rbuf c) [
    | none ↦ returns full_error (c, w)
    | some d ↦ if d.no_rbuf then returns full_error (d, w) else read_packet d w
  ]

  unfoldable pub deal_complete : PbConn C → W → Round (PbConn C × W)
  deal_complete c w =
      let (s, ret) = deal c.service (drop command_header_length c.rbuf) in
      if eqb_ℤ ret (pos 0)
      then returns read_all (record c { service = s; conn_status = header; rbuf = [] }, w)
      else returns deal_error (record c { service = s }, w)

  unfoldable pub request_round : PbConn C → W → Round (PbConn C × W)
  request_round c w = elim c.conn_status [
    | header ↦ read_header c w
    | packet ↦ packet_round c w
    | complete ↦ deal_complete c w
    | build_obuf ↦ go_on (c, w)
    | write_obuf ↦ go_on (c, w)
  ]

  -- `while (true)`, with fuel.
  unfoldable pub request_loop : ℕ → PbConn C → W → Option (ReadStatus × PbConn C × W)
  request_loop zero c w = none
  request_loop (suc fuel) c w = elim (request_round c w) [
    | returns s (d, w') ↦ some (s, d, w')
    | go_on (d, w') ↦ request_loop fuel d w'
  ]

  -- Each round is in a later state than the one before, so that there are at most three.
  unfoldable pub get_request : PbConn C → W → Option (ReadStatus × PbConn C × W)
  get_request c w = request_loop 3 c w
