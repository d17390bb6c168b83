-- ===== src/Http/Tests.antt =====
-- HTTP on a socket that is a list of bytes.
use pink.Base.{
  ℕ, zero, suc, ◌+◌, ◌-◌, ◌*◌, ◌^◌, ◌<◌, ◌≡◌, refl, sym, Bool, true, false, ◌&&◌, [], ◌∷◌, ◌++◌,
  Option, none, some, map, length, take, drop, leb, arith, if◌then◌else◌, length-take, append-nil,
}
use pink.PubSub.Tables.{Bytes, same, before}
use pink.Redis.Chars.{tolower}
use pink.Pb.Conn.{Received, closed, got, Sent, wrote, write_all}
use pink.Http.Fields.{Fields, set_field}
use pink.Http.Head.{new_head, header_param_key, parse_char, parse_chars, parse_head_line}
use pink.Http.Head.Chars.{head_of}
use pink.Http.Head.Lines.{render_head, field_lines, AllFields, stored}
use pink.Http.Query.{find_or_end, set_parameter, parse_parameters_loop, parse_parameters}
use pink.Http.Query.Pieces.{pieces, store_pieces, parse_parameters-pieces}
use pink.Http.Response.{
  max_message, Response, sending_body, finished_response, Body, body, flush, flush_in, flush_body,
  body_sent, filled_body, send_reply, reply_status,
}
use pink.Http.Response.Codes.{reason_phrase, is_status_code, is_some, reason_phrase-is_status_code}
use pink.Http.Response.Filling.{FillLaw, SendLaw, Good, to_start}
use pink.Http.Response.Sending.{flush-Good}
use pink.Http.Request.{HttpRequest, new_request, body_receiving, parse_header, with_head}
use pink.Http.Request.Parsed.{with_rbuf, parse_header-head}
use pink.Http.Reading.{HttpConn, go_on, header_done, start_body, read_data}
use pink.Http.Reading.Body.{StreamLaw, body_conn, Delivered, read_data-Delivered}
use pink.Http.Reading.Ends.{CountLaw, Ended, read_data-Ended}

-- "a=1&b"
abbrev query : Bytes
query = b'a' ∷ b'=' ∷ b'1' ∷ b'&' ∷ b'b' ∷ []

query_stored : parse_parameters query 0 [] ≡ (b'a' ∷ [], b'1' ∷ []) ∷ (b'b' ∷ [], []) ∷ []
unfolding parse_parameters parse_parameters_loop set_parameter find_or_end set_field same before
query_stored = refl

parse_parameters-pieces_example : parse_parameters query 0 [] ≡ store_pieces (pieces [] query) []
parse_parameters-pieces_example = parse_parameters-pieces query 0 []

reason_phrase-is_status_code_example : is_some (reason_phrase 404) ≡ is_status_code 404
reason_phrase-is_status_code_example = reason_phrase-is_status_code 404

-- A request "GET /x HTTP" with the headers "A: 1" and "Content-Length: 2".
abbrev lower : Bytes → Bytes
lower s = map tolower s

unfoldable value_from : ℕ → Bytes → ℕ
value_from n [] = n
value_from n (c ∷ s) = value_from (n * 10 + (c - b'0')) s

unfoldable stoul : Bytes → Option ℕ
stoul [] = none
stoul (c ∷ s) = if leb b'0' c && leb c b'9' then some (value_from 0 (c ∷ s)) else none

abbrev get : Bytes
get = b'G' ∷ b'E' ∷ b'T' ∷ []

abbrev slash_x : Bytes
slash_x = b'/' ∷ b'x' ∷ []

abbrev http : Bytes
http = b'H' ∷ b'T' ∷ b'T' ∷ b'P' ∷ []

abbrev two_fields : Fields
two_fields =
    (b'A' ∷ [], b'1' ∷ [])
    ∷ (
      b'C' ∷ b'o' ∷ b'n' ∷ b't' ∷ b'e' ∷ b'n' ∷ b't' ∷ b'-' ∷ b'L' ∷ b'e' ∷ b'n' ∷ b'g' ∷ b't'
          ∷ b'h' ∷ [],
      b'2' ∷ [],
    )
    ∷ []

abbrev request : HttpRequest
request = record {
  head = new_head;
  path = [];
  content_type = [];
  reply_100continue = false;
  query_params = [];
  req_status = new_request;
  rbuf = [];
  remain_recv_len = 0;
}

-- A header without a space behind its ':' is not stored.
no_space :
    parse_head_line lower
      (b'A' ∷ b':' ∷ b'1' ∷ 13 ∷ 10 ∷ [])
      (head_of get slash_x http [] header_param_key)
    ≡ head_of get slash_x http [] header_param_key
unfolding parse_head_line parse_chars parse_char
no_space = refl

two_fields-AllFields : AllFields two_fields
unfolding AllFields
two_fields-AllFields = ground arith

two_fields-room : length (render_head get slash_x http two_fields ++ 104 ∷ []) < max_message
unfolding field_lines
two_fields-room = omega arith

parse_header-head_example :
    parse_header lower stoul
      (with_rbuf (render_head get slash_x http two_fields ++ 104 ∷ []) request)
    ≡ with_head lower stoul
        (with_rbuf (render_head get slash_x http two_fields ++ 104 ∷ []) request)
        (length (render_head get slash_x http two_fields))
        (head_of get slash_x http (stored lower two_fields []) header_param_key)
parse_header-head_example =
    parse_header-head lower stoul request get slash_x http two_fields (104 ∷ []) (ground arith)
      (ground arith) (ground arith) two_fields-AllFields two_fields-room

-- A socket that takes a byte at a time, and the bytes of a body: those sent, those made, and those to make.
abbrev World : Type 0
World = Bytes × Bytes × Bytes

abbrev write_byte : Bytes → World → Sent × World
write_byte [] (o, m, t) = (wrote 0, (o, m, t))
write_byte (b ∷ bs) (o, m, t) = (wrote 1, (o ++ b ∷ [], m, t))

abbrev fill : ℕ → World → Body × World
fill n (o, m, t) = (body (take n t), (o, m ++ take n t, drop n t))

abbrev out : World → Bytes
out (o, m, t) = o

abbrev made : World → Bytes
made (o, m, t) = m

write_byte-law : (bs : Bytes) (w : World) → SendLaw out made bs w (write_byte bs w)
write_byte-law [] (o, m, t) = ((omega arith, sym (append-nil o)), refl)
write_byte-law (b ∷ bs) (o, m, t) = ((omega arith, refl), refl)

fill-law : (n : ℕ) (w : World) → FillLaw out made n w (fill n w)
fill-law n (o, m, t) = (omega (arith, length-take n t), refl, refl)

-- A response in its body, with three bytes to come.
abbrev sending : Response
sending = record finished_response {
  finished = false;
  resp_status = sending_body;
  remain_send_len = 3;
}

abbrev three_to_make : World
three_to_make = ([], [], 1 ∷ 2 ∷ 3 ∷ [])

first_flush : flush write_byte fill sending three_to_make ≡ (
  true,
  record sending { wbuf = 2 ∷ 3 ∷ []; wbuf_pos = 1; remain_send_len = 2 },
  (1 ∷ [], 1 ∷ 2 ∷ 3 ∷ [], []),
)
unfolding flush flush_in flush_body filled_body body_sent
first_flush = refl

flush-Good_example :
    Good out made
      (out three_to_make ++ (sending.wbuf ++ to_start sending))
      (made three_to_make)
      (flush write_byte fill sending three_to_make)
flush-Good_example =
    flush-Good out made write_byte fill write_byte-law fill-law sending three_to_make
      (omega arith, omega arith) refl

-- Behind "100 Continue" the response is still finished: its reply ends with bytes that are not sent.
after_continue : send_reply write_byte fill (record sending { finished = true }) three_to_make ≡ (
  write_all,
  record sending { wbuf = 2 ∷ 3 ∷ []; wbuf_pos = 1; remain_send_len = 2; finished = true },
  (1 ∷ [], 1 ∷ 2 ∷ 3 ∷ [], []),
)
unfolding send_reply reply_status flush flush_in flush_body filled_body body_sent
after_continue = refl

-- Handles that keep the parts of the body.
abbrev keep_request : Bytes → HttpRequest → Bytes × Bool
keep_request s r = (s, false)

abbrev keep_body : Bytes → Bytes → Bytes
keep_body s bs = s ++ bs

abbrev keep_response : Bytes → Response → Bytes × Response
keep_response s p = (s, p)

abbrev stay : Bytes → Bytes
stay s = s

-- Four bytes behind a head without a content length: the length wraps, and the body does not end.
pipelined :
    header_done keep_request keep_body keep_response stay
      (record { request = request; response = finished_response; handles = [] })
      (record request { rbuf = 0 ∷ 1 ∷ 2 ∷ 3 ∷ 4 ∷ [] })
      1
      three_to_make
    ≡ go_on (
      record {
        request = record request {
          req_status = body_receiving;
          rbuf = 1 ∷ 2 ∷ 3 ∷ 4 ∷ [];
          remain_recv_len = 2 ^ 64 - 4;
        };
        response = finished_response;
        handles = [];
      },
      three_to_make,
    )
unfolding header_done start_body
pipelined = refl

-- `read` of a socket whose bytes are a list.
abbrev read_bytes : ℕ → Bytes → Received × Bytes
read_bytes zero w = (closed, w)
read_bytes (suc n) [] = (closed, [])
read_bytes (suc n) (b ∷ w) = (got (b ∷ []), w)

read_bytes-StreamLaw : (n : ℕ) (w : Bytes) → 0 < n → StreamLaw (λ x. x) n w (read_bytes n w)
read_bytes-StreamLaw zero w asked = absurd (omega arith)
read_bytes-StreamLaw (suc n) [] asked = refl
read_bytes-StreamLaw (suc n) (b ∷ w) asked = (omega arith, omega arith, refl)

read_bytes-CountLaw : (n : ℕ) (w : Bytes) → CountLaw length n w (read_bytes n w)
read_bytes-CountLaw zero w = tt
read_bytes-CountLaw (suc n) [] = tt
read_bytes-CountLaw (suc n) (b ∷ w) = (omega arith, omega arith, omega arith)

abbrev two_to_come : Bytes
two_to_come = 8 ∷ 9 ∷ []

read_data-Delivered_example :
    Delivered keep_request keep_body keep_response stay lower stoul read_bytes
      (λ x. x)
      (λ s. s)
      ([] ++ ((7 ∷ []) ++ two_to_come))
      (read_data keep_request keep_body keep_response stay lower stoul read_bytes length
        (body_conn request finished_response [] (7 ∷ []) 2)
        two_to_come)
read_data-Delivered_example =
    read_data-Delivered keep_request keep_body keep_response stay lower stoul read_bytes (λ x. x)
      (λ s. s) (λ s bs. refl) (λ s p. refl) (λ s. refl) read_bytes-StreamLaw length request
      finished_response [] (7 ∷ []) 2 two_to_come (omega arith) (omega arith) refl (omega arith)
      (omega arith)

abbrev fresh_conn : HttpConn Bytes
fresh_conn = record { request = request; response = finished_response; handles = [] }

read_data-Ended_example :
    Ended keep_request keep_body keep_response stay length lower stoul read_bytes
      read_bytes-CountLaw
      (read_data keep_request keep_body keep_response stay lower stoul read_bytes length fresh_conn
        (render_head get slash_x http two_fields ++ two_to_come))
read_data-Ended_example =
    read_data-Ended keep_request keep_body keep_response stay length lower stoul read_bytes
      read_bytes-CountLaw fresh_conn (render_head get slash_x http two_fields ++ two_to_come)
      (omega arith)
