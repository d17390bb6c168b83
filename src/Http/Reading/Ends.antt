-- ===== src/Http/Reading/Ends.antt =====
-- `ReadData` of pink/src/http_conn.cc: its end, and the room of its buffer.
use pink.Base.{
  ℕ, zero, suc, ◌+◌, ◌-◌, ◌≤◌, ◌<◌, ◌≡◌, refl, sym, ◌∙◌, subst, Bool, true, false, ◌&&◌, not,
  Option, none, some, ltb, leb, ◌==◌, if-elim, length, length-append, length-drop, arith,
}
use pink.PubSub.Tables.{Bytes}
use pink.Pb.Conn.{ReadStatus, Received, again, failed, closed, got}
use pink.Http.Response.{Response, max_message, max_header, set_status_code}
use pink.Http.Response.Codes.{is_status_code}
use pink.Http.Head.{find_separator}
use pink.Http.Request.{
  HttpRequest, RequestStatus, new_request, header_receiving, body_receiving, body_received,
  reset_request, Header, no_header, bad_header, throws_header, header_behind, header, parse_header,
  parse_header_at, with_head, with_length,
}
use pink.Http.Reading.{
  HttpConn, Round, go_on, returns, throws, aborts, writes_behind, reply_continue, did_read, do_read,
  deliver, end_body, body_part, body_read, close_with, start_body, header_done, after_header,
  header_read, reply_ready, round_in, data_round, next_round, data_loop, start_request, begin_read,
  read_in, read_data,
}

-- What `read` is documented to do: it gives at most the bytes that are asked for, and `budget` bounds
-- those to come.
abbrev pub CountLaw : {W : Type 0} → (W → ℕ) → ℕ → W → Received × W → Type 0
CountLaw budget n w (got bs, v) =
    (0 < length bs) × (length bs ≤ n) × (length bs + budget v ≤ budget w)
CountLaw budget n w (_, v) = Unit

abbrev Running : RequestStatus → Type 0
Running new_request = ⊥
Running s = Unit

-- `ParseHeader` writes behind the buffer only if it is full.
abbrev Full : Header × HttpRequest → Type 0
Full (header_behind, r) = length r.rbuf ≡ max_message
Full (h, r) = Unit

-- `ParseHeader` keeps the buffer and the state.
abbrev SameBuffer : HttpRequest → Header × HttpRequest → Type 0
SameBuffer r (h, q) = (q.rbuf ≡ r.rbuf) × (q.req_status ≡ r.req_status)

module _ (string_to_lower : Bytes → Bytes) (stoul : Bytes → Option ℕ) where
  with_length-SameBuffer :
      (r : HttpRequest) (len : ℕ) (o : Option ℕ)
      → SameBuffer r (with_length string_to_lower stoul r len o)
  unfolding with_length
  with_length-SameBuffer r len none = (refl, refl)
  with_length-SameBuffer r len (some n) = (refl, refl)

  parse_header_at-SameBuffer :
      (r : HttpRequest) (o : Option ℕ) → SameBuffer r (parse_header_at string_to_lower stoul r o)
  unfolding parse_header_at with_head
  parse_header_at-SameBuffer r none = (refl, refl)
  parse_header_at-SameBuffer r (some sep) =
      if-elim (SameBuffer r) (leb (sep + 4) 5) (λ e. (refl, refl))
        (λ e. with_length-SameBuffer _ (sep + 4) _)

  parse_header-Full : (r : HttpRequest) → Full (parse_header string_to_lower stoul r)
  unfolding parse_header parse_header_at with_head with_length
  parse_header-Full r =
      if-elim Full (length r.rbuf == max_message) (λ e. ground arith)
        (λ e. parse_header_at-Full r (find_separator r.rbuf))
    where
      with_length-Full :
          (r : HttpRequest) (len : ℕ) (o : Option ℕ)
          → Full (with_length string_to_lower stoul r len o)
      with_length-Full r len none = tt
      with_length-Full r len (some n) = tt

      parse_header_at-Full :
          (r : HttpRequest) (o : Option ℕ) → Full (parse_header_at string_to_lower stoul r o)
      parse_header_at-Full r none = tt
      parse_header_at-Full r (some sep) =
          if-elim Full (leb (sep + 4) 5) (λ e. tt) (λ e. with_length-Full _ (sep + 4) _)

  parse_header-SameBuffer : (r : HttpRequest) → SameBuffer r (parse_header string_to_lower stoul r)
  unfolding parse_header
  parse_header-SameBuffer r =
      if-elim (SameBuffer r) (length r.rbuf == max_message) (λ e. (refl, refl))
        (λ e. parse_header_at-SameBuffer r (find_separator r.rbuf))

module _ {S W : Type 0} (handle_request : S → HttpRequest → S × Bool) (handle_body : S → Bytes → S)
    (prepare_response : S → Response → S × Response) (conn_closed : S → S) (budget : W → ℕ) where
  -- A round that goes on has a byte less to come.
  abbrev RoundOk : ℕ → Round (HttpConn S × W) → Type 0
  RoundOk b (go_on (d, v)) =
      (length d.request.rbuf ≤ max_message) × Running d.request.req_status × (budget v < b)
  RoundOk b (returns s (d, v)) = length d.request.rbuf ≤ max_message
  RoundOk b (throws (d, v)) = length d.request.rbuf ≤ max_message
  RoundOk b (aborts d) = ⊥
  RoundOk b (writes_behind (d, v)) = length d.request.rbuf ≡ max_message

  start_body-RoundOk :
      (c : HttpConn S) (r : HttpRequest) (w : W) (b : ℕ)
      → length r.rbuf ≤ max_message
      → Running r.req_status
      → budget w < b
      → RoundOk b (start_body handle_request handle_body prepare_response conn_closed c r w)
  unfolding start_body reply_continue set_status_code is_status_code
  start_body-RoundOk c r w b room running less =
      if-elim (RoundOk b) (r.reply_100continue && not (r.remain_recv_len == 0)) (λ e. room)
        (λ e.
          if-elim (RoundOk b) (r.remain_recv_len == 0) (λ f. (room, tt, less))
            (λ f. (room, running, less)))

  header_done-RoundOk :
      (c : HttpConn S) (r : HttpRequest) (len : ℕ) (w : W) (b : ℕ)
      → length r.rbuf ≤ max_message
      → budget w < b
      → RoundOk b (header_done handle_request handle_body prepare_response conn_closed c r len w)
  unfolding header_done
  header_done-RoundOk c r len w b room less =
      if-elim (RoundOk b) (handle_request c.handles (record r { req_status = body_receiving })).1
        (λ e. (room, tt, less))
        (λ e. start_body-RoundOk _ _ w b (omega (arith, length-drop len r.rbuf, room)) tt less)

  after_header-RoundOk :
      (c : HttpConn S) (w : W) (h : Header × HttpRequest) (b : ℕ)
      → length h.1.rbuf ≤ max_message
      → Running h.1.req_status
      → budget w < b
      → Full h
      → RoundOk b (after_header handle_request handle_body prepare_response conn_closed c w h)
  unfolding after_header close_with
  after_header-RoundOk c w (no_header, r) b room running less full =
      if-elim (RoundOk b) (ltb max_header (length r.rbuf)) (λ e. room) (λ e. (room, running, less))
  after_header-RoundOk c w (bad_header, r) b room running less full = room
  after_header-RoundOk c w (throws_header, r) b room running less full = room
  after_header-RoundOk c w (header_behind, r) b room running less full = full
  after_header-RoundOk c w (header len, r) b room running less full =
      if-elim (RoundOk b) (ltb max_header (length r.rbuf)) (λ e. room)
        (λ e. header_done-RoundOk c r len w b room less)

  -- The part of a body.
  delivered :
      (full done : Bool) (c : HttpConn S) (w : W) (b : ℕ)
      → length c.request.rbuf ≤ max_message
      → Running c.request.req_status
      → budget w < b
      → RoundOk b (go_on (end_body done (deliver handle_body full c), w))
  unfolding end_body deliver
  delivered true true c w b room running less = (omega arith, tt, less)
  delivered true false c w b room running less = (omega arith, running, less)
  delivered false true c w b room running less = (room, tt, less)
  delivered false false c w b room running less = (room, running, less)

  -- What `DoRead` leaves.
  abbrev ReadOk : ℕ → RequestStatus → Option ReadStatus × HttpRequest × W → Type 0
  ReadOk b st (some s, r, v) = length r.rbuf ≤ max_message
  ReadOk b st (none, r, v) = (length r.rbuf ≤ max_message) × (r.req_status ≡ st) × (budget v < b)

  did_read-ReadOk :
      (r : HttpRequest) (w : W) (o : Received × W)
      → length r.rbuf ≤ max_message
      → CountLaw budget (max_message - length r.rbuf) w o
      → ReadOk (budget w) r.req_status (did_read r o)
  unfolding did_read
  did_read-ReadOk r w (again, v) room law = room
  did_read-ReadOk r w (failed, v) room law = room
  did_read-ReadOk r w (closed, v) room law = room
  did_read-ReadOk r w (got bs, v) room law =
      (omega (arith, length-append r.rbuf bs, law.1, room), refl, omega (arith, law.0, law.2))

  module _ (string_to_lower : Bytes → Bytes) (stoul : Bytes → Option ℕ)
      (read : ℕ → W → Received × W) (law : (n : ℕ) (w : W) → CountLaw budget n w (read n w)) where
    header_read-RoundOk :
        (c : HttpConn S) (b : ℕ) (o : Option ReadStatus × HttpRequest × W)
        → ReadOk b header_receiving o
        → RoundOk b (
            header_read handle_request handle_body prepare_response conn_closed string_to_lower
              stoul read c o)
    unfolding header_read close_with
    header_read-RoundOk c b (some s, r, v) k = k
    header_read-RoundOk c b (none, r, v) (room, st, less) =
        let parsed = parse_header string_to_lower stoul r in
        let same : SameBuffer r parsed = parse_header-SameBuffer string_to_lower stoul r in
        after_header-RoundOk c v parsed b (subst (λ x. length x ≤ max_message) (sym same.0) room)
          (subst Running (sym (same.1 ∙ st)) tt) less (parse_header-Full string_to_lower stoul r)

    body_read-RoundOk :
        (c : HttpConn S) (b : ℕ) (o : Option ReadStatus × HttpRequest × W)
        → ReadOk b body_receiving o
        → RoundOk b (body_read handle_request handle_body prepare_response conn_closed c o)
    unfolding body_read close_with body_part
    body_read-RoundOk c b (some s, r, v) k = k
    body_read-RoundOk c b (none, r, v) (room, st, less) =
        delivered _ _ (record c { request = r }) v b room (subst Running (sym st) tt) less

    round_in-RoundOk :
        (s : RequestStatus) (c : HttpConn S) (w : W)
        → c.request.req_status ≡ s
        → Running s
        → length c.request.rbuf ≤ max_message
        → RoundOk (budget w) (
            round_in handle_request handle_body prepare_response conn_closed string_to_lower stoul
              read s c w)
    unfolding round_in do_read reply_ready
    round_in-RoundOk new_request c w st running room = absurd running
    round_in-RoundOk header_receiving c w st running room = header_read-RoundOk c (budget w) _ (
        subst (λ s. ReadOk (budget w) s (do_read read c.request w)) st
          (did_read-ReadOk c.request w (read (max_message - length c.request.rbuf) w) room
            (law (max_message - length c.request.rbuf) w)))
    round_in-RoundOk body_receiving c w st running room = body_read-RoundOk c (budget w) _ (
        subst (λ s. ReadOk (budget w) s (do_read read c.request w)) st
          (did_read-ReadOk c.request w (read (max_message - length c.request.rbuf) w) room
            (law (max_message - length c.request.rbuf) w)))
    round_in-RoundOk body_received c w st running room = room

    -- `ReadData` returns, or std::stoul throws, and the buffer is not past its end; or the buffer is full and
    -- `ParseHeader` writes behind it.
    abbrev pub Ended : Option (Round (HttpConn S × W)) → Type 0
    Ended none = ⊥
    Ended (some (go_on d)) = ⊥
    Ended (some (returns s (c, v))) = length c.request.rbuf ≤ max_message
    Ended (some (throws (c, v))) = length c.request.rbuf ≤ max_message
    Ended (some (aborts d)) = ⊥
    Ended (some (writes_behind (c, v))) = length c.request.rbuf ≡ max_message

    abbrev loop : ℕ → HttpConn S → W → Option (Round (HttpConn S × W))
    loop fuel c w =
        data_loop handle_request handle_body prepare_response conn_closed string_to_lower stoul read
          fuel c w

    abbrev Next : ℕ → Type 0
    Next fuel =
        (c : HttpConn S) (w : W)
        → Running c.request.req_status
        → length c.request.rbuf ≤ max_message
        → budget w + 1 < fuel
        → Ended (loop fuel c w)

    next_round-Ended :
        (fuel b : ℕ) (o : Round (HttpConn S × W))
        → Next fuel
        → b < fuel
        → RoundOk b o
        → Ended (
            next_round handle_request handle_body prepare_response conn_closed string_to_lower stoul
              read
              (loop fuel)
              o)
    unfolding next_round
    next_round-Ended fuel b (go_on (d, v)) next enough (room, running, less) =
        next d v running room (omega arith)
    next_round-Ended fuel b (returns s (d, v)) next enough k = k
    next_round-Ended fuel b (throws (d, v)) next enough k = k
    next_round-Ended fuel b (aborts d) next enough k = k
    next_round-Ended fuel b (writes_behind (d, v)) next enough k = k

    data_loop-Ended : (fuel : ℕ) → Next fuel
    unfolding data_loop data_round
    data_loop-Ended zero c w running room enough = absurd (omega arith)
    data_loop-Ended (suc fuel) c w running room enough =
        next_round-Ended fuel (budget w) _ (data_loop-Ended fuel) (omega arith)
          (round_in-RoundOk c.request.req_status c w refl running room)

    read_in-Ended :
        (s : RequestStatus) (fuel : ℕ) (c : HttpConn S) (w : W)
        → c.request.req_status ≡ s
        → length c.request.rbuf ≤ max_message
        → budget w + 1 < fuel
        → Ended (
            read_in handle_request handle_body prepare_response conn_closed string_to_lower stoul
              read s fuel c w)
    unfolding read_in begin_read start_request reset_request
    read_in-Ended new_request fuel c w st room enough =
        if-elim
          (λ o. Ended (
            begin_read handle_request handle_body prepare_response conn_closed string_to_lower stoul
              read fuel c w o))
          c.response.finished (λ f. data_loop-Ended fuel _ w tt (omega arith) enough)
          (λ f. omega arith)
    read_in-Ended header_receiving fuel c w st room enough =
        data_loop-Ended fuel c w (subst Running (sym st) tt) room enough
    read_in-Ended body_receiving fuel c w st room enough =
        data_loop-Ended fuel c w (subst Running (sym st) tt) room enough
    read_in-Ended body_received fuel c w st room enough =
        data_loop-Ended fuel c w (subst Running (sym st) tt) room enough

    -- If `read` gives at most the bytes that it is asked for and `budget` bounds those to come, and the
    -- buffer is not past its end of 8 MB, then `ReadData` returns or std::stoul throws, from each state of
    -- the request, whatever the bytes are and whatever the handles do, the assertion on the status code holds,
    -- and the buffer is not past its end; or a `read` of a head has filled the buffer, and then `ParseHeader`
    -- writes one byte behind it.
    pub read_data-Ended :
        (c : HttpConn S) (w : W)
        → length c.request.rbuf ≤ max_message
        → Ended (
            read_data handle_request handle_body prepare_response conn_closed string_to_lower stoul
              read budget c w)
    unfolding read_data
    read_data-Ended c w room =
        read_in-Ended c.request.req_status (budget w + 3) c w refl room (omega arith)
