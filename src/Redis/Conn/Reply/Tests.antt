-- ===== src/Redis/Conn/Reply/Tests.antt =====
-- `SendReply` of pink/src/redis_conn.cc on a socket that takes three bytes each second time.
use pink.Base.{
  ◌≡◌, refl, sym, ap, ◌∙◌, Bool, true, false, List, [], ◌∷◌, ◌++◌, some, length, take, drop, arith,
  append-nil,
}
use pink.Redis.Chars.{Bytes}
use pink.Pb.Conn.{write_all}
use pink.Redis.Conn.Reply.{
  Writev, wrote, again, Replies, last_sent, all_bytes, by_result, after_writev, writev_loop,
  send_iov, send_started, send_reply, write_resp,
}
use pink.Redis.Conn.Reply.Sending.{WritevLaw, Replied, send_reply-response, send_reply-write_resp}

-- A socket that takes everything, or nothing.
abbrev Socket : Type 0
Socket = Bool × Bytes

abbrev sent_of : List Bytes → List Bytes
sent_of [] = []
sent_of (x ∷ xs) = [] ∷ sent_of xs

abbrev out : Socket → Bytes
out (b, o) = o

unfoldable writev : List Bytes → Socket → Writev × List Bytes × Socket
writev iov (false, o) = (again, iov, (true, o))
writev iov (true, o) = (wrote (length (all_bytes iov)), sent_of iov, (true, o ++ all_bytes iov))

all_bytes-sent_of : (iov : List Bytes) → all_bytes (sent_of iov) ≡ []
unfolding all_bytes
all_bytes-sent_of [] = refl
all_bytes-sent_of (x ∷ xs) = all_bytes-sent_of xs

false_ne_true : {b : Bool} {A : Type 0} → b ≡ false → b ≡ true → A
false_ne_true f t = absurd (cc)

writev-law :
    (iov : List Bytes) (w : Socket) → last_sent iov ≡ false → WritevLaw out iov w (writev iov w)
unfolding writev
writev-law iov (false, o) ls = (0, omega arith, tt, sym (append-nil o), refl, false_ne_true ls)
writev-law iov (true, o) ls =
    let (whole, none_left) = all_taken (all_bytes iov) in
    (
      length (all_bytes iov),
      omega arith,
      refl,
      ap (λ x. o ++ x) (sym whole),
      all_bytes-sent_of iov ∙ sym none_left,
      λ t. all_bytes-sent_of iov,
    )
  where
    all_taken : (xs : Bytes) → (take (length xs) xs ≡ xs) × (drop (length xs) xs ≡ [])
    all_taken [] = (refl, refl)
    all_taken (x ∷ xs) = let (t, d) = all_taken xs in (ap (λ y. x ∷ y) t, d)

abbrev two_items : Replies
two_items = record {
  response = (1 ∷ 2 ∷ []) ∷ [] ∷ (3 ∷ []) ∷ [];
  iov = [];
  started = false;
  num_retry = 0;
  is_reply = true;
}

abbrev half_sent : Replies
half_sent = record {
  response = (1 ∷ 2 ∷ []) ∷ (3 ∷ []) ∷ [];
  iov = [] ∷ (3 ∷ []) ∷ [];
  started = true;
  num_retry = 0;
  is_reply = true;
}

send_reply-response_example : Replied out (1 ∷ 2 ∷ 3 ∷ []) (send_reply writev two_items (true, []))
unfolding all_bytes
send_reply-response_example =
    send_reply-response out writev writev-law two_items (true, []) (omega arith) refl

send_reply-write_resp_example :
    (d : Replies) × (write_resp true (4 ∷ []) half_sent ≡ some d)
    × Replied out (1 ∷ 2 ∷ 3 ∷ []) (send_reply writev d (true, 1 ∷ 2 ∷ []))
unfolding all_bytes last_sent
send_reply-write_resp_example =
    send_reply-write_resp out writev writev-law half_sent (true, 1 ∷ 2 ∷ []) (4 ∷ []) refl refl

-- The item 4 is added behind the vector that is half sent.
abbrev four_added : Replies
four_added = record half_sent { response = (1 ∷ 2 ∷ []) ∷ (3 ∷ []) ∷ (4 ∷ []) ∷ [] }

added : write_resp true (4 ∷ []) half_sent ≡ some four_added
unfolding write_resp
added = refl

-- The 4 is dropped with the response, and the status is kWriteAll.
dropped :
    send_reply writev four_added (true, 1 ∷ 2 ∷ [])
    ≡ some (
      write_all,
      record { response = []; iov = []; started = false; num_retry = 0; is_reply = true },
      (true, 1 ∷ 2 ∷ 3 ∷ []),
    )
unfolding send_reply send_started send_iov writev_loop after_writev by_result writev all_bytes
    last_sent
dropped = refl
