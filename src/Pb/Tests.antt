-- ===== src/Pb/Tests.antt =====
-- The length-prefixed protocol on a socket that is a list of bytes.
use pink.Base.{
  ℕ, zero, suc, ◌-◌, ◌^◌, ◌<◌, ◌≡◌, refl, sym, ap, ◌∙◌, Bool, true, List, [], ◌∷◌, ◌++◌, some, none,
  take, drop, ℤ, pos, arith, take-append-drop, length-take, append-nil, length,
}
use pink.Pb.Frame.{Bytes, ntohl_bytes, htonl_bytes, build_internal_tag}
use pink.Pb.Conn.{
  read_all, Received, Received.closed, got, Sent, wrote, PbConn, new_conn, packet, get_request,
  request_loop, request_round, read_header, received_header, packet_round, expand_rbuf, read_packet,
  received_packet, deal_complete,
}
use pink.Pb.Framing.{ReadLaw, IsValid, Answered, get_request-Answered}
use pink.Pb.Reply.{WriteBuf, empty_buf, write_resp, set_is_reply, send_reply, reply_loop}
use pink.Pb.Sending.{WriteLaw, Replied, total, send_reply-Replied, reply_loop-empty_item}
use pink.Pb.Client.{Raw, raw, received, RecvLaw, send_buf, recv, recv-send_buf}

-- `read` of a socket whose bytes are a list.
abbrev read_bytes : ℕ → Bytes → Received × Bytes
read_bytes zero w = (closed, w)
read_bytes (suc n) [] = (closed, [])
read_bytes (suc n) (b ∷ w) = (got (b ∷ take n w), drop n w)

read_bytes-ReadLaw : (n : ℕ) (w : Bytes) → ReadLaw (λ x. x) n w (read_bytes n w)
read_bytes-ReadLaw zero w = refl
read_bytes-ReadLaw (suc n) [] = refl
read_bytes-ReadLaw (suc n) (b ∷ w) =
    let size = length-take n w in
    (λ e. cc, omega arith, ap (λ x. b ∷ x) (sym (take-append-drop n w)))

abbrev keep_message : List Bytes → Bytes → List Bytes × ℤ
keep_message ms m = (ms ++ m ∷ [], pos 0)

abbrev enough_memory : ℕ → Bool
enough_memory n = true

-- A message of two bytes, and the head of another one.
abbrev two_bytes : Bytes
two_bytes = 0 ∷ 0 ∷ 0 ∷ 2 ∷ 104 ∷ 105 ∷ 0 ∷ 0 ∷ []

first_message :
    get_request read_bytes keep_message enough_memory (new_conn []) two_bytes
    ≡ some (
      read_all,
      record (new_conn ((104 ∷ 105 ∷ []) ∷ [])) { header_len = 2; remain_packet_len = 0 },
      0 ∷ 0 ∷ [],
    )
unfolding get_request request_loop request_round read_header received_header packet_round
    expand_rbuf read_packet received_packet deal_complete ntohl_bytes
first_message = refl

new_conn-IsValid : IsValid {C = List Bytes} (new_conn [])
new_conn-IsValid = record {
  has_rbuf = refl;
  room = omega arith;
  bounded = omega arith;
  fits = omega arith;
  counts = omega arith;
}

two_bytes-small : ntohl_bytes two_bytes < 2 ^ 32 - 4
unfolding ntohl_bytes
two_bytes-small = omega arith

get_request-Answered_example :
    Answered read_bytes keep_message enough_memory
      (λ x. x)
      read_bytes-ReadLaw
      two_bytes
      []
      (get_request read_bytes keep_message enough_memory (new_conn []) two_bytes)
get_request-Answered_example =
    get_request-Answered read_bytes keep_message enough_memory (λ x. x) read_bytes-ReadLaw
      (new_conn []) two_bytes new_conn-IsValid two_bytes-small

-- `write` that takes one byte each time.
abbrev write_byte : Bytes → Bytes → Sent × Bytes
write_byte [] w = (wrote 0, w)
write_byte (b ∷ bs) w = (wrote 1, w ++ b ∷ [])

write_byte-WriteLaw : (bs w : Bytes) → WriteLaw (λ x. x) bs w (write_byte bs w)
write_byte-WriteLaw [] w = (omega arith, sym (append-nil w))
write_byte-WriteLaw (b ∷ bs) w = (omega arith, refl)

-- The head and the body of a reply, with one byte sent.
abbrev reply_buf : WriteBuf
reply_buf = record {
  queue = (0 ∷ 0 ∷ 0 ∷ 2 ∷ []) ∷ (104 ∷ 105 ∷ []) ∷ [];
  item_pos = 1;
  is_reply = pos 1;
}

queued : write_resp (104 ∷ 105 ∷ []) empty_buf ≡ record reply_buf { item_pos = 0 }
unfolding write_resp set_is_reply build_internal_tag htonl_bytes
queued = refl

send_reply-Replied_example :
    Replied write_byte
      (λ x. x)
      write_byte-WriteLaw
      (total write_byte (λ x. x) write_byte-WriteLaw reply_buf [])
      (send_reply write_byte reply_buf [])
send_reply-Replied_example =
    send_reply-Replied write_byte (λ x. x) write_byte-WriteLaw reply_buf []
      (omega arith, omega arith, (omega arith, omega arith, tt)) (omega arith)

reply_loop-empty_item_example :
    reply_loop write_byte 5 (record { queue = [] ∷ []; item_pos = 0; is_reply = pos 1 }) [] ≡ none
reply_loop-empty_item_example = reply_loop-empty_item write_byte 5 [] (pos 1) []

-- A head of 2^32 - 2 on a new connection.
abbrev wide_conn : PbConn (List Bytes)
wide_conn = record (new_conn []) {
  header_len = 2 ^ 32 - 2;
  rbuf = 255 ∷ 255 ∷ 255 ∷ 254 ∷ [];
  remain_packet_len = 2 ^ 32 - 2;
  conn_status = packet;
}

-- A connection whose buffer was made longer, two bytes before the end of a message of four.
abbrev long_conn : PbConn (List Bytes)
long_conn = record (new_conn []) {
  header_len = 4;
  rbuf = 0 ∷ 0 ∷ 0 ∷ 4 ∷ 104 ∷ 105 ∷ [];
  rbuf_len = 2 ^ 28;
  remain_packet_len = 2;
  conn_status = packet;
}

-- `RecvRaw` of a socket whose bytes are a list.
abbrev recv_bytes : ℕ → Bytes → Raw Unit × Bytes
recv_bytes n w = (raw (take n w), drop n w)

recv_bytes-RecvLaw : RecvLaw (λ x. x) recv_bytes
recv_bytes-RecvLaw w bs rest e = (
  drop (length bs) w,
  ap (λ x. (raw (take (length bs) x), drop (length bs) w)) e
      ∙ ap (λ x. (raw x, drop (length bs) w)) (take_front bs rest),
  ap (drop (length bs)) e ∙ drop_front bs rest,
)
  where
    take_front : (xs ys : Bytes) → take (length xs) (xs ++ ys) ≡ xs
    take_front [] ys = refl
    take_front (x ∷ xs) ys = ap (λ z. x ∷ z) (take_front xs ys)

    drop_front : (xs ys : Bytes) → drop (length xs) (xs ++ ys) ≡ ys
    drop_front [] ys = refl
    drop_front (x ∷ xs) ys = drop_front xs ys

sent_two : send_buf (λ m. m) (104 ∷ 105 ∷ []) ≡ some (0 ∷ 0 ∷ 0 ∷ 2 ∷ 104 ∷ 105 ∷ [])
unfolding send_buf htonl_bytes
sent_two = refl

recv-send_buf_example :
    (v : Bytes) × (recv some recv_bytes (0 ∷ 0 ∷ 0 ∷ 2 ∷ 104 ∷ 105 ∷ 7 ∷ [])
      ≡ (received (104 ∷ 105 ∷ []), v))
    × (v ≡ 7 ∷ [])
recv-send_buf_example =
    recv-send_buf (λ m. m) some recv_bytes (λ x. x) (0 ∷ 0 ∷ 0 ∷ 2 ∷ 104 ∷ 105 ∷ 7 ∷ [])
      (104 ∷ 105 ∷ []) (0 ∷ 0 ∷ 0 ∷ 2 ∷ 104 ∷ 105 ∷ []) (7 ∷ []) recv_bytes-RecvLaw refl sent_two
      refl
