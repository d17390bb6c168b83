-- ===== src/Http/Reading.antt =====
-- `HTTPRequest::DoRead` and `ReadData` of pink/src/http_conn.cc. `read` and the handles of the user are
-- parameters.
pub mod Body
pub mod Ends
use pink.Base.{
  ℕ, zero, suc, ◌+◌, ◌-◌, ◌*◌, ◌%◌, ◌^◌, Bool, true, false, ◌&&◌, ◌||◌, [], ◌∷◌, ◌++◌, Option, none,
  some, ltb, ◌==◌, if◌then◌else◌, length, drop, not,
}
use pink.PubSub.Tables.{Bytes}
use pink.Pb.Conn.{
  ReadStatus, read_half, read_all, read_error, read_close, Received, again, failed, closed, got,
}
use pink.Http.Response.{Response, reset_response, set_status_code, max_header, max_message}
use pink.Http.Request.{
  HttpRequest, RequestStatus, new_request, header_receiving, body_receiving, body_received,
  reset_request, Header, no_header, bad_header, throws_header, header_behind, header, parse_header,
}

-- The request and the response of an `HTTPConn`, and the state of its handles.
pub record HttpConn (S : Type 0) : Type 0 where
  pub request : HttpRequest
  pub response : Response
  pub handles : S

-- One round of the loop: it goes on, returns, std::stoul throws, the assertion on a status code fails, or
-- `ParseHeader` writes its 0 behind the buffer.
pub data Round (S : Type 0) : Type 0 where
  go_on : S → Round S
  returns : ReadStatus → S → Round S
  throws aborts writes_behind : S → Round S

abbrev is_body : RequestStatus → Bool
is_body body_receiving = true
is_body s = false

-- What `DoRead` does with the result of `read`; none is kOk.
unfoldable pub did_read :
    {W : Type 0} → HttpRequest → Received × W → Option ReadStatus × HttpRequest × W
did_read r (again, w) = (some read_half, r, w)
did_read r (failed, w) = (some read_close, r, w)
did_read r (closed, w) = (some read_close, r, w)
did_read r (got bs, w) = (
  none,
  record r {
    rbuf = r.rbuf ++ bs;
    remain_recv_len =
        if is_body r.req_status
        then (r.remain_recv_len + 2 ^ 64 - length bs) % 2 ^ 64
        else r.remain_recv_len;
  },
  w,
)

module _ {W : Type 0} (read : ℕ → W → Received × W) where
  unfoldable pub do_read : HttpRequest → W → Option ReadStatus × HttpRequest × W
  do_read r w = did_read r (read (max_message - length r.rbuf) w)

-- In `kBodyReceiving`: a full buffer, or the end of the body, goes to the handle.
unfoldable pub deliver : {S : Type 0} → (S → Bytes → S) → Bool → HttpConn S → HttpConn S
deliver handle_body true c = record c {
  request = record c.request { rbuf = [] };
  handles = handle_body c.handles c.request.rbuf;
}
deliver handle_body false c = c

unfoldable pub end_body : {S : Type 0} → Bool → HttpConn S → HttpConn S
end_body true c = record c { request = record c.request { req_status = body_received } }
end_body false c = c

module _ {S W : Type 0} (handle_request : S → HttpRequest → S × Bool) (handle_body : S → Bytes → S)
    (prepare_response : S → Response → S × Response) (conn_closed : S → S) where
  -- `HandleConnClosed` and the status.
  unfoldable pub close_with : ReadStatus → HttpConn S → W → Round (HttpConn S × W)
  close_with s c w = returns s (record c { handles = conn_closed c.handles }, w)

  -- The response to "Expect: 100-continue".
  unfoldable pub reply_continue :
      HttpConn S → HttpRequest → W → Option Response → Round (HttpConn S × W)
  reply_continue c r w none = aborts (c, w)
  reply_continue c r w (some p) = returns read_all (record c { request = r; response = p }, w)

  -- Behind a header: the part of the body that is there.
  unfoldable pub start_body : HttpConn S → HttpRequest → W → Round (HttpConn S × W)
  start_body c r w =
      if r.reply_100continue && not (r.remain_recv_len == 0)
      then reply_continue c (record r { reply_100continue = false }) w
          (set_status_code 100 c.response)
      else if r.remain_recv_len == 0
      then go_on (
        record c {
          request = record r { req_status = body_received };
          handles = handle_body c.handles r.rbuf;
        },
        w,
      )
      else go_on (record c { request = r }, w)

  unfoldable pub header_done : HttpConn S → HttpRequest → ℕ → W → Round (HttpConn S × W)
  header_done c r len w =
      let q = record r { req_status = body_receiving } in
      let h = handle_request c.handles q in
      let d = record c { handles = h.0 } in
      let rest = drop len r.rbuf in
      if h.1
      then go_on (record d { request = record r { req_status = body_received } }, w)
      else start_body d
          (record q {
            rbuf = rest;
            remain_recv_len = (r.remain_recv_len + 2 ^ 64 - length rest) % 2 ^ 64;
          })
          w

  unfoldable pub after_header : HttpConn S → W → Header × HttpRequest → Round (HttpConn S × W)
  after_header c w (no_header, r) =
      if ltb max_header (length r.rbuf)
      then close_with read_error (record c { request = r }) w
      else go_on (record c { request = r }, w)
  after_header c w (bad_header, r) = close_with read_error (record c { request = r }) w
  after_header c w (header_behind, r) = writes_behind (record c { request = r }, w)
  after_header c w (throws_header, r) = throws (record c { request = r }, w)
  after_header c w (header len, r) =
      if ltb max_header (length r.rbuf)
      then close_with read_error (record c { request = r }) w
      else header_done c r len w

  unfoldable pub body_part : HttpConn S → HttpRequest → W → Round (HttpConn S × W)
  body_part c r w =
      let full = length r.rbuf == max_message || r.remain_recv_len == 0 in
      go_on
        (end_body (r.remain_recv_len == 0) (deliver handle_body full (record c { request = r })), w)

  unfoldable pub body_read :
      HttpConn S → Option ReadStatus × HttpRequest × W → Round (HttpConn S × W)
  body_read c (some s, r, w) = close_with s (record c { request = r }) w
  body_read c (none, r, w) = body_part c r w

  unfoldable pub reply_ready : HttpConn S → W → Round (HttpConn S × W)
  reply_ready c w =
      let p = prepare_response c.handles c.response in
      returns read_all (
        record c {
          request = record c.request { req_status = new_request };
          response = p.1;
          handles = p.0;
        },
        w,
      )

  module _ (string_to_lower : Bytes → Bytes) (stoul : Bytes → Option ℕ)
      (read : ℕ → W → Received × W) where
    unfoldable pub header_read :
        HttpConn S → Option ReadStatus × HttpRequest × W → Round (HttpConn S × W)
    header_read c (some s, r, w) = close_with s (record c { request = r }) w
    header_read c (none, r, w) = after_header c w (parse_header string_to_lower stoul r)

    -- The switch.
    unfoldable pub round_in : RequestStatus → HttpConn S → W → Round (HttpConn S × W)
    round_in new_request c w = go_on (c, w)
    round_in header_receiving c w = header_read c (do_read read c.request w)
    round_in body_receiving c w = body_read c (do_read read c.request w)
    round_in body_received c w = reply_ready c w

    unfoldable pub data_round : HttpConn S → W → Round (HttpConn S × W)
    data_round c w = round_in c.request.req_status c w

    unfoldable pub next_round :
        (HttpConn S → W → Option (Round (HttpConn S × W)))
        → Round (HttpConn S × W)
        → Option (Round (HttpConn S × W))
    next_round rest (go_on d) = rest d.0 d.1
    next_round rest (returns s d) = some (returns s d)
    next_round rest (throws d) = some (throws d)
    next_round rest (aborts d) = some (aborts d)
    next_round rest (writes_behind d) = some (writes_behind d)

    -- `while (true)`, with fuel.
    unfoldable pub data_loop : ℕ → HttpConn S → W → Option (Round (HttpConn S × W))
    data_loop zero c w = none
    data_loop (suc fuel) c w = next_round (data_loop fuel) (data_round c w)

    -- `Reset` and the end of the last response.
    unfoldable pub start_request : HttpConn S → Option (HttpConn S)
    start_request c =
        let r = reset_request c.request in
        if c.response.finished
        then some (record c {
          request = record r { req_status = header_receiving };
          response = reset_response c.response;
        })
        else none

    unfoldable pub begin_read :
        ℕ → HttpConn S → W → Option (HttpConn S) → Option (Round (HttpConn S × W))
    begin_read fuel c w none =
        some (returns read_half (record c { request = reset_request c.request }, w))
    begin_read fuel c w (some d) = data_loop fuel d w

    unfoldable pub read_in : RequestStatus → ℕ → HttpConn S → W → Option (Round (HttpConn S × W))
    read_in new_request fuel c w = begin_read fuel c w (start_request c)
    read_in s fuel c w = data_loop fuel c w

    -- `ReadData`; each round but the last two takes a byte, and `budget` bounds the bytes to come.
    unfoldable pub read_data : (W → ℕ) → HttpConn S → W → Option (Round (HttpConn S × W))
    read_data budget c w = read_in c.request.req_status (budget w + 3) c w
