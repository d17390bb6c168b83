-- ===== src/Redis/Reply/Tests.antt =====
-- `Recv` of the redis client on a socket that gives a list of packets.
use pink.Base.{◌<◌, ℕ, true, ◌+◌, ◌≡◌, refl, List, [], ◌∷◌, ◌++◌, map, length, take, drop, arith}
use pink.Redis.Chars.{Bytes, Argv}
use pink.Redis.Serialize.{digits}
use pink.Cli.{
  eagain, other_errno, Errno, ReadResult, read_failed, read_bytes, WriteResult, written, send_raw,
}
use pink.Redis.Reply.{
  redis_ok, recv_reply, get_reply, get_reply_loop, get_reply_from_reader, reply_of_type,
  process_line_item, process_bulk_item, process_multi_bulk_item, line_item, bulk_item, bulk_body,
  multi_bulk_header, read_line, line_of, seek_newline, read_int, read_long_long, read_digits,
  signed_value, after_read, after_reader, is_half,
}
use pink.Redis.Reply.Items.{line, text, nil, status, integer, state}
use pink.Redis.Reply.Whole.{Reply, single, many, render_reply, render_items, AllSound}
use pink.Redis.Reply.Pipeline.{render_replies, SoundReplies, recv_each, answer, recv_each-replies}
use pink.Redis.Reply.Cut.{Refused, cut_text, recv_reply-cut}
use pink.PubSub.Publish.{construct_publish_resp, parts, recv_reply-construct_publish_resp}
use pink.Redis.Request.{Writes, send_request, send_request-send_raw}

-- A socket: its packets. A `read` gives what fits of the first one.
abbrev Packets : Type 0
Packets = List Bytes

abbrev read_packet : ℕ → Packets → ReadResult × Packets
read_packet n [] = (read_failed eagain, [])
read_packet n (p ∷ ps) = (read_bytes (take n p), drop n p ∷ ps)

-- Each packet is a `read`, and its bytes are counted.
abbrev budget : Packets → ℕ
budget [] = 0
budget (p ∷ ps) = length p + budget ps

-- "+OK\r\n", an array of a text, a nil and a number, and one byte of the next reply.
abbrev okay : Reply
okay = single (line status (79 ∷ 75 ∷ []))

abbrev three : Reply
three = many (text (104 ∷ 105 ∷ []) ∷ nil ∷ line integer (55 ∷ []) ∷ [])

abbrev three_bytes : Bytes
three_bytes =
    42 ∷ 51 ∷ 13 ∷ 10 ∷ 36 ∷ 50 ∷ 13 ∷ 10 ∷ 104 ∷ 105 ∷ 13 ∷ 10 ∷ 36 ∷ 45 ∷ 49 ∷ 13 ∷ 10 ∷ 58 ∷ 55
    ∷ 13 ∷ 10 ∷ []

three_rendered : render_reply three ≡ three_bytes
unfolding render_items digits
three_rendered = refl

-- The nil is left out.
three_received :
    recv_reply read_packet budget (state [] (three_bytes ++ 43 ∷ []) 0) []
    ≡ (redis_ok, state ((104 ∷ 105 ∷ []) ∷ (55 ∷ []) ∷ []) (43 ∷ []) 0, [])
unfolding recv_reply get_reply get_reply_loop get_reply_from_reader reply_of_type process_line_item
    process_bulk_item process_multi_bulk_item line_item bulk_item bulk_body multi_bulk_header
    read_line line_of seek_newline read_int read_long_long read_digits signed_value after_read
    after_reader is_half
three_received = refl

three_Sound : AllSound (text (104 ∷ 105 ∷ []) ∷ nil ∷ line integer (55 ∷ []) ∷ [])
unfolding AllSound
three_Sound = (omega arith, (tt, ((omega arith, tt), tt)))

two_Sound : SoundReplies (okay ∷ three ∷ [])
unfolding SoundReplies
two_Sound = ((omega arith, (omega arith, tt)), ((three_Sound, omega arith), tt))

recv_each-replies_example :
    (b : Argv) × (f : ℕ) × (recv_each
        (recv_reply read_packet budget)
        2
        (state [] (render_replies (okay ∷ three ∷ []) ++ 43 ∷ []) 0)
        []
      ≡ (map answer (okay ∷ three ∷ []), state b (43 ∷ []) f, []))
recv_each-replies_example =
    recv_each-replies read_packet budget (okay ∷ three ∷ []) [] (43 ∷ []) 0 [] two_Sound

abbrev read_whole : ℕ → Packets → ReadResult × Packets
read_whole n [] = (read_failed eagain, [])
read_whole n (p ∷ ps) = (read_bytes p, ps)

-- "$5\r\nhe" and "llo\r\n".
abbrev late : Packets
late = (108 ∷ 108 ∷ 111 ∷ 13 ∷ 10 ∷ []) ∷ []

recv_reply-cut_example :
    Refused read_whole budget []
      (recv_reply read_whole budget (state [] (b'$' ∷ cut_text 5 (104 ∷ 101 ∷ [])) 0) late)
unfolding digits
recv_reply-cut_example =
    recv_reply-cut read_whole budget [] 0 5 (104 ∷ 101 ∷ []) (108 ∷ 108 ∷ 111 ∷ 13 ∷ 10 ∷ []) late
      [] (omega arith) (omega arith) (omega arith) refl

abbrev left_errno : Bytes → Errno
left_errno w = other_errno

abbrev write_two : Bytes → Bytes → WriteResult × Bytes
write_two [] w = (written 0, w)
write_two (b ∷ []) w = (written 1, w ++ b ∷ [])
write_two (b ∷ c ∷ bs) w = (written 2, w ++ b ∷ c ∷ [])

write_two-Writes : (bs w : Bytes) → 0 < length bs → Writes bs (write_two bs w)
write_two-Writes [] w some = absurd (omega arith)
write_two-Writes (b ∷ []) w some = (omega arith, omega arith)
write_two-Writes (b ∷ c ∷ bs) w some = (omega arith, omega arith)

abbrev no_interrupts : Bytes → ℕ
no_interrupts w = 0

send_request-send_raw_example :
    send_request left_errno write_two no_interrupts three_bytes []
    ≡ send_raw write_two no_interrupts three_bytes []
send_request-send_raw_example =
    send_request-send_raw left_errno write_two three_bytes write_two-Writes no_interrupts []
      (omega arith)

-- A message "hi" for a subscriber of the pattern "n*" on the channel "nw".
recv_reply-construct_publish_resp_example :
    recv_reply read_packet budget
      (state []
        (construct_publish_resp (110 ∷ 42 ∷ []) (110 ∷ 119 ∷ []) (104 ∷ 105 ∷ []) true ++ 43 ∷ [])
        0)
      []
    ≡ (
      redis_ok,
      state (parts (110 ∷ 42 ∷ []) (110 ∷ 119 ∷ []) (104 ∷ 105 ∷ []) true) (43 ∷ []) 0,
      [],
    )
recv_reply-construct_publish_resp_example =
    recv_reply-construct_publish_resp read_packet budget (110 ∷ 42 ∷ []) (110 ∷ 119 ∷ [])
      (104 ∷ 105 ∷ []) true [] (43 ∷ []) 0 [] (omega arith) (omega arith) (omega arith)
