-- ===== src/Pb/Client.antt =====
-- pink/src/pb_cli.cc: `PbCli`. SendRaw and RecvRaw, the serializer and the parser of messages are parameters.
use pink.Base.{
  ℕ, ◌+◌, ◌≤◌, ◌≡◌, refl, sym, ap, ◌∙◌, Bool, true, false, if◌then◌else◌, leb, [], ◌++◌, Option,
  none, some, length, append_assoc, append-nil, arith,
}
use pink.Pb.Frame.{Bytes, htonl_bytes, ntohl_bytes, ntohl-htonl, length-htonl}
use pink.Pb.Conn.{command_header_length, proto_max_message}

-- The results of `Recv`: the status of RecvRaw, Corruption, or the message; `past_buffer` is a packet that
-- RecvRaw would write past the end of `rbuf_`, where the model stops.
pub data Reply (M E : Type 0) : Type 0 where
  failed : E → Reply M E
  corruption past_buffer : Reply M E
  received : M → Reply M E

-- What `Send` gives to SendRaw: the int `wbuf_len` is written in front of the message. None is a message
-- that, with the head, is longer than `wbuf_`, so that SerializeToArray writes past its end; any length that
-- is left fits an int.
unfoldable pub send_buf : {M : Type 0} → (M → Bytes) → M → Option Bytes
send_buf serialize req =
    let wbuf_len = length (serialize req) in
    if leb (wbuf_len + command_header_length) proto_max_message
    then some (htonl_bytes wbuf_len ++ serialize req)
    else none

-- The result of RecvRaw: a status that is not ok, or the bytes.
pub data Raw (E : Type 0) : Type 0 where
  raw_error : E → Raw E
  raw : Bytes → Raw E

module _ {M E W : Type 0} (parse : Bytes → Option M) (recv_raw : ℕ → W → Raw E × W) where
  unfoldable pub parse_packet : Raw E × W → Reply M E × W
  parse_packet (raw_error e, w) = (failed e, w)
  parse_packet (raw bs, w) = (elim (parse bs) [ none ↦ corruption | some m ↦ received m ], w)

  unfoldable pub read_packet_of : Raw E × W → Reply M E × W
  read_packet_of (raw_error e, w) = (failed e, w)
  read_packet_of (raw bs, w) =
      let packet_len = ntohl_bytes bs in
      if leb packet_len proto_max_message
      then parse_packet (recv_raw packet_len w)
      else (past_buffer, w)

  -- `Recv`.
  unfoldable pub recv : W → Reply M E × W
  recv w = read_packet_of (recv_raw command_header_length w)

-- What `RecvRaw` promises when it returns ok: all the bytes that are asked for, from the front of the stream.
abbrev pub RecvLaw : {E W : Type 0} → (W → Bytes) → (ℕ → W → Raw E × W) → Type 0
RecvLaw {W = W} stream recv_raw =
    (w : W) (bs rest : Bytes)
    → stream w ≡ bs ++ rest
    → (v : W) × (recv_raw (length bs) w ≡ (raw bs, v)) × (stream v ≡ rest)

-- A test that gives a text has held.
if_some : (b : Bool) (x y : Bytes) → (if b then some x else none) ≡ some y → (b ≡ true) × (x ≡ y)
if_some true x y e = (refl, cc)
if_some false x y e = absurd (cc)

send_buf-fits :
    {M : Type 0} (serialize : M → Bytes) (m : M) (wire : Bytes)
    → send_buf serialize m ≡ some wire
    → (length (serialize m) + 4 ≤ proto_max_message)
      × (htonl_bytes (length (serialize m)) ++ serialize m ≡ wire)
unfolding send_buf
send_buf-fits serialize m wire sent =
    let (fits, same) =
      if_some (leb (length (serialize m) + 4) proto_max_message)
        (htonl_bytes (length (serialize m)) ++ serialize m) wire sent in
    (ground arith, same)

-- If RecvRaw gives all the bytes that it is asked for, from the front of the stream, when the stream
-- has them, the parser of messages reads what the serializer has written of this message, and the
-- message with its head fits the buffer of 512 MB, so that `Send` gives SendRaw a text, then `Recv` reads
-- the message back from this text, and leaves the stream behind it.
pub recv-send_buf :
    {M E W : Type 0} (serialize : M → Bytes) (parse : Bytes → Option M)
    (recv_raw : ℕ → W → Raw E × W) (stream : W → Bytes) (w : W) (m : M) (wire rest : Bytes)
    → RecvLaw stream recv_raw
    → parse (serialize m) ≡ some m
    → send_buf serialize m ≡ some wire
    → stream w ≡ wire ++ rest
    → (v : W) × (recv parse recv_raw w ≡ (received m, v)) × (stream v ≡ rest)
unfolding recv read_packet_of parse_packet
recv-send_buf {M} {E} serialize parse recv_raw stream w m wire rest law inverse sent on_stream =
    let body = serialize m in
    let head = htonl_bytes (length body) in
    let (fits, written) = send_buf-fits serialize m wire sent in
    let (u, first, left) =
      law w head (body ++ rest)
        (on_stream ∙ ap (λ x. x ++ rest) (sym written) ∙ append_assoc head body rest) in
    let (v, second, after) = law u body rest left in
    let size : ntohl_bytes head ≡ length body =
      ap ntohl_bytes (sym (append-nil head)) ∙ ntohl-htonl (length body) [] (omega arith) in
    let four : length head ≡ 4 = length-htonl (length body) in
    let packet : ℕ → Reply M E × _ = λ n.
      if leb n proto_max_message
      then parse_packet parse recv_raw (recv_raw n u)
      else (past_buffer, u) in
    let short : packet (length body) ≡ parse_packet parse recv_raw (recv_raw (length body) u) =
      ground arith in
    (
      v,
      ap (λ n. read_packet_of parse recv_raw (recv_raw n w)) (sym four)
          ∙ ap (read_packet_of parse recv_raw) first
          ∙ ap packet size
          ∙ short
          ∙ ap (parse_packet parse recv_raw) second
          ∙ ap (λ o. (elim o as (λ x. Reply M E) [ none ↦ corruption | some x ↦ received x ], v))
              inverse,
      after,
    )
