-- ===== src/Cli/Tests.antt =====
-- `SendRaw` and `RecvRaw` on a socket that is interrupted and takes and gives one byte at a time.
use pink.Base.{ℕ, zero, suc, ◌<◌, ◌≡◌, refl, [], ◌∷◌, ◌++◌, Option, some, arith, append-nil, sym}
use pink.Pb.Frame.{Bytes, htonl_bytes}
use pink.Pb.Client.{RecvLaw, send_buf, recv, received}
use pink.Cli.{
  eintr, ReadResult, read_failed, read_bytes, WriteResult, write_failed, written, ok, end_file,
  send_raw, send_loop, sent_some, recv_raw, recv_loop, received_some, raw_of,
}
use pink.Cli.Receiving.{ReadLaw, Takes, Dry, recv_raw_lem, recv_raw-RecvLaw, recv-over_socket}
use pink.Cli.Sending.{SendLaw, SentFront, send_raw_lem}

-- A socket: the interruptions to come, and its bytes.
abbrev Socket : Type 0
Socket = ℕ × Bytes

abbrev interrupts : Socket → ℕ
interrupts (k, w) = k

abbrev stream : Socket → Bytes
stream (k, w) = w

abbrev slow_read : ℕ → Socket → ReadResult × Socket
slow_read n (suc k, w) = (read_failed eintr, (k, w))
slow_read zero (zero, w) = (read_bytes [], (0, w))
slow_read (suc n) (zero, []) = (read_bytes [], (0, []))
slow_read (suc n) (zero, b ∷ w) = (read_bytes (b ∷ []), (0, w))

abbrev slow_send : Bytes → Socket → WriteResult × Socket
slow_send bs (suc k, w) = (write_failed eintr, (k, w))
slow_send [] (zero, w) = (written 0, (0, w))
slow_send (b ∷ bs) (zero, w) = (written 1, (0, w ++ b ∷ []))

slow_read-law :
    (n : ℕ) (w : Socket) → 0 < n → ReadLaw stream interrupts (Dry stream) n w (slow_read n w)
slow_read-law n (suc k, w) asked = (refl, omega arith)
slow_read-law zero (zero, w) asked = absurd (omega arith)
slow_read-law (suc n) (zero, []) asked = (refl, refl)
slow_read-law (suc n) (zero, b ∷ w) asked = (omega arith, refl, omega arith)

slow_send-law : (bs : Bytes) (w : Socket) → SendLaw stream interrupts bs w (slow_send bs w)
slow_send-law bs (suc k, w) = (refl, omega arith)
slow_send-law [] (zero, w) = (omega arith, sym (append-nil w), omega arith)
slow_send-law (b ∷ bs) (zero, w) = (omega arith, refl, omega arith)

abbrev three_bytes : Bytes
three_bytes = 104 ∷ 105 ∷ 33 ∷ []

recv_two : recv_raw slow_read interrupts 2 (3, three_bytes) ≡ (ok, 104 ∷ 105 ∷ [], (0, 33 ∷ []))
unfolding recv_raw recv_loop received_some
recv_two = refl

recv_four : recv_raw slow_read interrupts 4 (3, three_bytes) ≡ (end_file, three_bytes, (0, []))
unfolding recv_raw recv_loop received_some
recv_four = refl

send_three : send_raw slow_send interrupts three_bytes (2, 9 ∷ []) ≡ (ok, (0, 9 ∷ three_bytes))
unfolding send_raw send_loop sent_some
send_three = refl

recv_raw_lem_example :
    Takes stream (Dry stream) 2 three_bytes (recv_raw slow_read interrupts 2 (3, three_bytes))
recv_raw_lem_example =
    recv_raw_lem stream interrupts (Dry stream) slow_read slow_read-law 2 (3, three_bytes)

send_raw_lem_example :
    SentFront stream (9 ∷ []) three_bytes (send_raw slow_send interrupts three_bytes (2, 9 ∷ []))
send_raw_lem_example =
    send_raw_lem slow_send stream interrupts three_bytes (2, 9 ∷ []) slow_send-law (omega arith)

abbrev any_bytes : Bytes → Option Bytes
any_bytes bs = some bs

recv_raw-RecvLaw_example : RecvLaw stream (λ n w. raw_of (recv_raw slow_read interrupts n w))
recv_raw-RecvLaw_example = recv_raw-RecvLaw stream interrupts slow_read slow_read-law

-- The head and the body of a message of three bytes.
abbrev three_sent : Bytes
three_sent = 0 ∷ 0 ∷ 0 ∷ 3 ∷ three_bytes

send_buf-three : send_buf (λ m. m) three_bytes ≡ some three_sent
unfolding send_buf htonl_bytes
send_buf-three = refl

recv-over_socket_example :
    (v : Socket) × (recv any_bytes
        (λ n w. raw_of (recv_raw slow_read interrupts n w))
        (3, three_sent ++ 7 ∷ [])
      ≡ (received three_bytes, v))
    × (stream v ≡ 7 ∷ [])
recv-over_socket_example =
    recv-over_socket (λ m. m) any_bytes stream interrupts slow_read (3, three_sent ++ 7 ∷ [])
      three_bytes three_sent (7 ∷ []) slow_read-law refl send_buf-three refl
