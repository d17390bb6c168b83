-- ===== src/Http/Response.antt =====
-- Responses in pink/src/http_conn.cc: `HTTPResponse` and `SendReply`. `write` and the handle that fills the
-- body are parameters.
pub mod Codes
pub mod Filling
pub mod Sending
use pink.Base.{
  ℕ, zero, suc, ◌+◌, ◌-◌, ◌*◌, ◌%◌, ◌^◌, Bool, true, false, ◌&&◌, ◌||◌, List, [], ◌∷◌, ◌++◌, Option,
  none, some, ltb, leb, ◌==◌, if◌then◌else◌, length, take, drop,
}
use pink.PubSub.Tables.{Bytes}
use pink.Http.Fields.{Fields, set_field, field?}
use pink.Redis.Serialize.{to_string}
use pink.Pb.Conn.{WriteStatus, write_half, write_all, write_error, Sent, again, failed, wrote}
use pink.Http.Response.Codes.{reason_phrase, is_status_code}

-- `ResponseStatus`.
pub data ResponseStatus : Type 0 where
  prepare_header sending_header sending_body : ResponseStatus

-- `wbuf` is the `buf_len_` bytes at `wbuf_pos_`.
pub record Response : Type 0 where
  pub resp_status : ResponseStatus
  pub wbuf : Bytes
  pub wbuf_pos : ℕ
  pub remain_send_len : ℕ
  pub finished : Bool
  pub status_code : ℕ
  pub headers : Fields

-- The constructor.
abbrev pub finished_response : Response
finished_response = record {
  resp_status = prepare_header;
  wbuf = [];
  wbuf_pos = 0;
  remain_send_len = 0;
  finished = true;
  status_code = 200;
  headers = [];
}

-- `HTTPResponse::Reset`.
unfoldable pub reset_response : Response → Response
reset_response p = record finished_response { finished = false }

-- None is the assertion that fails.
unfoldable pub set_status_code : ℕ → Response → Option Response
set_status_code code p =
    if is_status_code code then some (record p { status_code = code }) else none

unfoldable pub set_headers : Bytes → Bytes → Response → Response
set_headers key value p = record p { headers = set_field key value p.headers }

abbrev upper_key : Bytes
upper_key =
    b'C' ∷ b'o' ∷ b'n' ∷ b't' ∷ b'e' ∷ b'n' ∷ b't' ∷ b'-' ∷ b'L' ∷ b'e' ∷ b'n' ∷ b'g' ∷ b't' ∷ b'h'
    ∷ []

abbrev lower_key : Bytes
lower_key =
    b'c' ∷ b'o' ∷ b'n' ∷ b't' ∷ b'e' ∷ b'n' ∷ b't' ∷ b'-' ∷ b'l' ∷ b'e' ∷ b'n' ∷ b'g' ∷ b't' ∷ b'h'
    ∷ []

unfoldable pub has_field : Bytes → Fields → Bool
has_field k fs = elim (field? k fs) [ none ↦ false | some v ↦ true ]

unfoldable pub set_content_length : ℕ → Response → Response
set_content_length size p =
    let q = record p { remain_send_len = size } in
    if has_field upper_key p.headers || has_field lower_key p.headers
    then q
    else set_headers upper_key (to_string size) q

abbrev pub max_header : ℕ
max_header = 1024 * 1024

abbrev pub max_message : ℕ
max_message = 1024 * 1024 * 8

abbrev pub crlf : Bytes
crlf = 13 ∷ 10 ∷ []

-- What the calls of snprintf write, for texts that have no 0.
abbrev pub status_line : ℕ → Bytes → Bytes
status_line code reason =
    b'H'
    ∷ b'T'
    ∷ b'T'
    ∷ b'P'
    ∷ b'/'
    ∷ b'1'
    ∷ b'.'
    ∷ b'1'
    ∷ b' '
    ∷ (to_string code ++ b' ' ∷ (reason ++ crlf))

abbrev pub header_line : Bytes × Bytes → Bytes
header_line (k, v) = k ++ b':' ∷ b' ' ∷ (v ++ crlf)

unfoldable pub header_lines : Fields → List Bytes
header_lines [] = crlf ∷ []
header_lines (f ∷ fs) = header_line f ∷ header_lines fs

-- The calls of snprintf, up to a sum that is exactly the size of the header's room.
unfoldable pub print_lines : List Bytes → Bytes → Option Bytes
print_lines [] out = some out
print_lines (l ∷ ls) out =
    let more = print_lines ls (out ++ l) in if length (out ++ l) == max_header then none else more

-- `SerializeHeader`; none when it returns false, and where `http_status_map.at` throws.
unfoldable pub serialize_with : Response → Option Bytes → Option Bytes
serialize_with p none = none
serialize_with p (some reason) =
    print_lines (status_line p.status_code reason ∷ header_lines p.headers) []

unfoldable pub serialize_header : Response → Option Bytes
serialize_header p = serialize_with p (reason_phrase p.status_code)

-- The results of `WriteResponseBody`: the bytes that it has filled, or a negative number.
pub data Body : Type 0 where
  body : Bytes → Body
  negative : Body

-- The results of a part of `Flush`: it goes on, or it returns.
pub data Flow (W : Type 0) : Type 0 where
  next : Response → W → Flow W
  returns : Bool → Response → W → Flow W

-- The header that is serialized; a `buf_len_` past the room of the header is refused.
unfoldable pub prepared : Response → Option Bytes → Option Response
prepared p none = none
prepared p (some bs) =
    if ltb max_header (length bs)
    then none
    else some (record p { wbuf = bs; resp_status = sending_header })

-- What `Flush` does with the result of the `write` of the header, and of the body.
unfoldable pub header_sent : {W : Type 0} → Response → Sent × W → Flow W
header_sent p (again, w) = returns true p w
header_sent p (failed, w) = returns false p w
header_sent p (wrote n, w) =
    if n == 0
    then returns false p w
    else if n == length p.wbuf
    then (if p.status_code == 100
        then returns true
            (record p { wbuf = []; wbuf_pos = 0; resp_status = prepare_header; finished = true }) w
        else next (record p { wbuf = []; wbuf_pos = 0; resp_status = sending_body }) w)
    else next (record p { wbuf = drop n p.wbuf; wbuf_pos = p.wbuf_pos + n }) w

unfoldable pub body_sent : {W : Type 0} → Response → Sent × W → Bool × Response × W
body_sent p (again, w) = (true, p, w)
body_sent p (failed, w) = (false, p, w)
body_sent p (wrote n, w) = if n == 0 then (false, p, w) else (
  true,
  record p {
    wbuf = drop n p.wbuf;
    wbuf_pos = if p.wbuf_pos + n == max_message then 0 else p.wbuf_pos + n;
    remain_send_len = (p.remain_send_len + 2 ^ 64 - n) % 2 ^ 64;
  },
  w,
)

-- The count that the handle may fill.
abbrev pub needed_size : Response → ℕ
needed_size p =
    if ltb (max_message - p.wbuf_pos) p.remain_send_len
    then max_message - p.wbuf_pos
    else p.remain_send_len

module _ {W : Type 0} (write : Bytes → W → Sent × W) (write_response_body : ℕ → W → Body × W) where
  unfoldable pub flush_header : Response → W → Flow W
  flush_header p w = header_sent p (write p.wbuf w)

  unfoldable pub filled_body : Response → Body × W → Bool × Response × W
  filled_body p (negative, w) = (false, p, w)
  filled_body p (body bs, w) = body_sent (record p { wbuf = bs }) (write bs w)

  unfoldable pub flush_body : Response → W → Bool × Response × W
  flush_body p w =
      if p.remain_send_len == 0
      then (true, record p { finished = true; resp_status = prepare_header }, w)
      else if length p.wbuf == 0
      then filled_body p (write_response_body (needed_size p) w)
      else body_sent p (write p.wbuf w)

  -- The body's part, when the header's part has come to it.
  unfoldable pub body_in : ResponseStatus → Response → W → Bool × Response × W
  body_in sending_body p w = flush_body p w
  body_in s p w = (true, p, w)

  unfoldable pub after_header : Flow W → Bool × Response × W
  after_header (returns b p w) = (b, p, w)
  after_header (next p w) = body_in p.resp_status p w

  unfoldable pub flush_prepared : W → Response → Option Response → Bool × Response × W
  flush_prepared w p none = (false, p, w)
  flush_prepared w p (some q) = after_header (flush_header q w)

  unfoldable pub flush_in : ResponseStatus → Response → W → Bool × Response × W
  flush_in prepare_header p w = flush_prepared w p (prepared p (serialize_header p))
  flush_in sending_header p w = after_header (flush_header p w)
  flush_in sending_body p w = flush_body p w

  -- `Flush`.
  unfoldable pub flush : Response → W → Bool × Response × W
  flush p w = flush_in p.resp_status p w

  unfoldable pub reply_status : Bool × Response × W → WriteStatus × Response × W
  reply_status (b, p, w) =
      if b
      then (if p.finished then (write_all, p, w) else (write_half, p, w))
      else (write_error, p, w)

  -- `SendReply`.
  unfoldable pub send_reply : Response → W → WriteStatus × Response × W
  send_reply p w = reply_status (flush p w)
