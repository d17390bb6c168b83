-- ===== src/Http/Request.antt =====
-- Requests in pink/src/http_conn.cc: the fields of `HTTPRequest`, and `ParseHeader`. `StringToLower` of
-- slash and `std::stoul` are parameters.
pub mod Parsed
use pink.Base.{
  ℕ, zero, suc, ◌+◌, ◌-◌, ◌*◌, ◌%◌, ◌^◌, Bool, true, false, ◌&&◌, ◌||◌, [], ◌∷◌, ◌++◌, Option, none,
  some, ltb, leb, ◌==◌, if◌then◌else◌, length, take, drop, not,
}
use pink.PubSub.Tables.{Bytes, same}
use pink.Http.Fields.{Fields, field?}
use pink.Http.Head.{Head, new_head, find_separator, parse_lines}
use pink.Http.Query.{parse_get_url}
use pink.Http.Response.{max_message}

-- `RequestStatus`.
pub data RequestStatus : Type 0 where
  new_request header_receiving body_receiving body_received : RequestStatus

-- `rbuf` is the buffer up to `rbuf_pos_`, which is its length.
pub record HttpRequest : Type 0 where
  pub head : Head
  pub path : Bytes
  pub content_type : Bytes
  pub reply_100continue : Bool
  pub query_params : Fields
  pub req_status : RequestStatus
  pub rbuf : Bytes
  pub remain_recv_len : ℕ

-- `HTTPRequest::Reset`.
unfoldable pub reset_request : HttpRequest → HttpRequest
reset_request r = record {
  head = new_head;
  path = [];
  content_type = [];
  reply_100continue = false;
  query_params = [];
  req_status = r.req_status;
  rbuf = [];
  remain_recv_len = 0;
}

-- The results of `ParseHeader`: 0, -1, what std::stoul throws, the length of the header, and a buffer that
-- is full, behind which it writes a byte: the model stops there.
pub data Header : Type 0 where
  no_header bad_header throws_header header_behind : Header
  header : ℕ → Header

abbrev content_length_key : Bytes
content_length_key =
    b'c' ∷ b'o' ∷ b'n' ∷ b't' ∷ b'e' ∷ b'n' ∷ b't' ∷ b'-' ∷ b'l' ∷ b'e' ∷ b'n' ∷ b'g' ∷ b't' ∷ b'h'
    ∷ []

abbrev content_type_key : Bytes
content_type_key =
    b'c' ∷ b'o' ∷ b'n' ∷ b't' ∷ b'e' ∷ b'n' ∷ b't' ∷ b'-' ∷ b't' ∷ b'y' ∷ b'p' ∷ b'e' ∷ []

abbrev expect_key : Bytes
expect_key = b'e' ∷ b'x' ∷ b'p' ∷ b'e' ∷ b'c' ∷ b't' ∷ []

-- "100-" and "ontinue" behind its 'C' or 'c'.
abbrev continue_of : ℕ → Bytes
continue_of c = b'1' ∷ b'0' ∷ b'0' ∷ b'-' ∷ c ∷ b'o' ∷ b'n' ∷ b't' ∷ b'i' ∷ b'n' ∷ b'u' ∷ b'e' ∷ []

unfoldable pub expects_continue : Option Bytes → Bool
expects_continue none = false
expects_continue (some v) = same v (continue_of b'C') || same v (continue_of b'c')

unfoldable pub some_or : Option Bytes → Bytes → Bytes
some_or none d = d
some_or (some v) d = v

module _ (string_to_lower : Bytes → Bytes) (stoul : Bytes → Option ℕ) where
  -- The content length in the headers; none when std::stoul throws.
  unfoldable pub content_length : Option Bytes → Option ℕ
  content_length none = some 0
  content_length (some v) = stoul v

  -- `ParseHeader` behind the parameters of the url.
  unfoldable pub with_length : HttpRequest → ℕ → Option ℕ → Header × HttpRequest
  with_length r len none = (throws_header, r)
  with_length r len (some n) =
      let fields = r.head.headers in
      (
        header len,
        record r {
          remain_recv_len = n;
          content_type = some_or (field? content_type_key fields) r.content_type;
          reply_100continue = expects_continue (field? expect_key fields) || r.reply_100continue;
        },
      )

  unfoldable pub with_head : HttpRequest → ℕ → Head → Header × HttpRequest
  with_head r len h =
      let u = parse_get_url h.url h.headers r.query_params in
      with_length (record r { head = h; path = u.0; query_params = u.1 }) len
        (content_length (field? content_length_key h.headers))

  -- `ParseHeader` on the result of `strstr`; `line_end` never falls behind `line_start`.
  unfoldable pub parse_header_at : HttpRequest → Option ℕ → Header × HttpRequest
  parse_header_at r none = (no_header, r)
  parse_header_at r (some sep) =
      let len = sep + 4 in
      if leb len 5
      then (bad_header, r)
      else with_head r len (parse_lines string_to_lower len r.rbuf len r.head)

  unfoldable pub parse_header : HttpRequest → Header × HttpRequest
  parse_header r =
      if length r.rbuf == max_message
      then (header_behind, r)
      else parse_header_at r (find_separator r.rbuf)
