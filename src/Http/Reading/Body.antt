-- ===== src/Http/Reading/Body.antt =====
-- The body of a request in `ReadData` of pink/src/http_conn.cc.
use pink.Base.{
  ℕ, zero, suc, ◌+◌, ◌-◌, ◌%◌, ◌^◌, ◌≤◌, ◌<◌, ◌≡◌, refl, sym, ap, ◌∙◌, Bool, true, false, ◌||◌, [],
  ◌∷◌, ◌++◌, Option, some, length, length-append, append_assoc, append-nil, ◌==◌, arith,
}
use pink.PubSub.Tables.{Bytes}
use pink.Pb.Conn.{read_all, Received, again, failed, closed, got}
use pink.Http.Response.{Response, max_message}
use pink.Http.Request.{HttpRequest, new_request, body_receiving, body_received}
use pink.Http.Reading.{
  HttpConn, Round, returns, did_read, do_read, deliver, end_body, body_part, body_read, close_with,
  reply_ready, round_in, data_round, next_round, data_loop, read_in, read_data,
}

-- What `read` is documented to do: it gives some bytes from the front of the stream, at most those that are
-- asked for, or, when it fails, has nothing yet or is at the end, it takes none.
abbrev pub StreamLaw : {W : Type 0} → (W → Bytes) → ℕ → W → Received × W → Type 0
StreamLaw stream n w (got bs, v) = (0 < length bs) × (length bs ≤ n) × (stream w ≡ bs ++ stream v)
StreamLaw stream n w (_, v) = stream v ≡ stream w

-- A connection in the middle of a body.
abbrev pub body_conn : {S : Type 0} → HttpRequest → Response → S → Bytes → ℕ → HttpConn S
body_conn r p s buf k = record {
  request = record r { req_status = body_receiving; rbuf = buf; remain_recv_len = k };
  response = p;
  handles = s;
}

module _ {S W : Type 0} (handle_request : S → HttpRequest → S × Bool) (handle_body : S → Bytes → S)
    (prepare_response : S → Response → S × Response) (conn_closed : S → S)
    (string_to_lower : Bytes → Bytes) (stoul : Bytes → Option ℕ) (read : ℕ → W → Received × W)
    (stream : W → Bytes) (body : S → Bytes) where
  -- With kReadAll the request is complete, with this body, and nothing is left on the stream. With any other
  -- status the body is still being read, and what the handle has been given, the buffer and the bytes to come
  -- are the body.
  abbrev pub Delivered : Bytes → Option (Round (HttpConn S × W)) → Type 0
  Delivered all (some (returns read_all (c, v))) =
      (body c.handles ≡ all) × (c.request.req_status ≡ new_request) × (stream v ≡ [])
  Delivered all (some (returns s (c, v))) =
      (body c.handles ++ (c.request.rbuf ++ stream v) ≡ all)
      × (c.request.req_status ≡ body_receiving)
      × (c.request.remain_recv_len ≡ length (stream v))
      × (0 < length (stream v))
  Delivered all _ = ⊥

  abbrev loop : ℕ → HttpConn S → W → Option (Round (HttpConn S × W))
  loop fuel c w =
      data_loop handle_request handle_body prepare_response conn_closed string_to_lower stoul read
        fuel c w

  module _ (handle_law : (s : S) (bs : Bytes) → body (handle_body s bs) ≡ body s ++ bs)
      (prepare_law : (s : S) (p : Response) → body (prepare_response s p).0 ≡ body s)
      (closed_law : (s : S) → body (conn_closed s) ≡ body s)
      (read_law : (n : ℕ) (w : W) → 0 < n → StreamLaw stream n w (read n w)) where
    abbrev Next : ℕ → Bytes → Type 0
    Next fuel all =
        (r : HttpRequest) (p : Response) (s : S) (buf : Bytes) (k : ℕ) (w : W)
        → 0 < k
        → k < 2 ^ 64
        → k ≡ length (stream w)
        → length buf < max_message
        → all ≡ body s ++ (buf ++ stream w)
        → k + 1 < fuel
        → Delivered all (loop fuel (body_conn r p s buf k) w)

    -- The last part is delivered, and the reply is prepared.
    ready :
        (fuel : ℕ) (all : Bytes) (r : HttpRequest) (p : Response) (s : S) (w : W)
        → 0 < fuel
        → body s ≡ all
        → stream w ≡ []
        → Delivered all (
            loop fuel
              (record {
                request = record r { req_status = body_received };
                response = p;
                handles = s;
              })
              w)
    unfolding data_loop data_round round_in next_round reply_ready
    ready zero all r p s w some_fuel e dry = absurd (omega arith)
    ready (suc fuel) all r p s w some_fuel e dry = (prepare_law s p ∙ e, refl, dry)

    -- Behind a part of the body.
    goes_on :
        (fuel : ℕ) (all : Bytes) (full done : Bool) (r : HttpRequest) (p : Response) (s : S)
        (buf : Bytes) (k : ℕ) (w : W)
        → Next fuel all
        → k < 2 ^ 64
        → k ≡ length (stream w)
        → all ≡ body s ++ (buf ++ stream w)
        → k + 1 < fuel
        → (done ≡ true → full ≡ true)
        → (done ≡ true → stream w ≡ [])
        → (done ≡ false → 0 < k)
        → (full ≡ false → length buf < max_message)
        → Delivered all
            (loop fuel (end_body done (deliver handle_body full (body_conn r p s buf k))) w)
    unfolding end_body deliver
    goes_on fuel all true true r p s buf k w next small counts e enough both dry more room =
        ready fuel all (record r { rbuf = []; remain_recv_len = k }) p (handle_body s buf) w
          (omega arith)
          (handle_law s buf
            ∙ sym (append-nil (body s ++ buf))
            ∙ ap (λ x. (body s ++ buf) ++ x) (sym (dry refl))
            ∙ append_assoc (body s) buf (stream w)
            ∙ sym e)
          (dry refl)
    goes_on fuel all false true r p s buf k w next small counts e enough both dry more room =
        absurd (false_ne_true (both refl))
      where
        false_ne_true : false ≡ true → ⊥
        false_ne_true f = cc
    goes_on fuel all true false r p s buf k w next small counts e enough both dry more room =
        next r p (handle_body s buf) [] k w (more refl) small counts (omega arith)
          (e
            ∙ sym (append_assoc (body s) buf (stream w))
            ∙ ap (λ x. x ++ stream w) (sym (handle_law s buf)))
          enough
    goes_on fuel all false false r p s buf k w next small counts e enough both dry more room =
        next r p s buf k w (more refl) small counts (room refl) e enough

    nil_of : (xs : Bytes) → length xs ≡ 0 → xs ≡ []
    nil_of [] h = refl
    nil_of (x ∷ xs) h = absurd (omega arith)

    -- `read` gives nothing, and the call returns.
    unfinished :
        (all : Bytes) (s : S) (buf : Bytes) (k : ℕ) (w v : W)
        → stream v ≡ stream w
        → 0 < k
        → k ≡ length (stream w)
        → all ≡ body s ++ (buf ++ stream w)
        → (body (conn_closed s) ++ (buf ++ stream v) ≡ all)
          × (body_receiving ≡ body_receiving)
          × (k ≡ length (stream v))
          × (0 < length (stream v))
    unfinished all s buf k w v same more counts e = (
      ap (λ x. x ++ (buf ++ stream v)) (closed_law s) ∙ ap (λ x. body s ++ (buf ++ x)) same ∙ sym e,
      refl,
      counts ∙ ap length (sym same),
      omega (arith, counts, more, ap length same),
    )

    -- A round, by the result of `read`.
    round_of :
        (fuel : ℕ) (all : Bytes) (r : HttpRequest) (p : Response) (s : S) (buf : Bytes) (k : ℕ)
        (w : W) (o : Received × W)
        → Next fuel all
        → 0 < k
        → k < 2 ^ 64
        → k ≡ length (stream w)
        → length buf < max_message
        → all ≡ body s ++ (buf ++ stream w)
        → k < fuel
        → StreamLaw stream (max_message - length buf) w o
        → Delivered all (
            next_round handle_request handle_body prepare_response conn_closed string_to_lower stoul
              read
              (loop fuel)
              (body_read handle_request handle_body prepare_response conn_closed
                (body_conn r p s buf k)
                (did_read (body_conn r p s buf k).request o)))
    unfolding next_round body_read did_read body_part close_with
    round_of fuel all r p s buf k w (again, v) next more small counts room e enough law =
        unfinished all s buf k w v law more counts e
    round_of fuel all r p s buf k w (failed, v) next more small counts room e enough law =
        unfinished all s buf k w v law more counts e
    round_of fuel all r p s buf k w (closed, v) next more small counts room e enough law =
        unfinished all s buf k w v law more counts e
    round_of fuel all r p s buf k w (got bs, v) next more small counts room e enough law =
        let left = (k + 2 ^ 64 - length bs) % 2 ^ 64 in
        let parts : k ≡ length bs + length (stream v) =
          counts ∙ ap length law.2 ∙ length-append bs (stream v) in
        let counted : left ≡ length (stream v) = omega (arith, parts, small) in
        let size = length-append buf bs in
        goes_on fuel all (length (buf ++ bs) == max_message || left == 0) (left == 0) r p s
          (buf ++ bs) left v next (omega arith) counted
          (e
            ∙ ap (λ x. body s ++ x)
                (ap (λ x. buf ++ x) law.2 ∙ sym (append_assoc buf bs (stream v))))
          (omega (arith, counted, parts, law.0, enough)) (λ d. ground arith)
          (λ d. nil_of (stream v) (ground (arith, counted))) (λ d. ground arith)
          (λ f. ground (arith, size, law.1, room))

    body_loop-Delivered : (fuel : ℕ) (all : Bytes) → Next fuel all
    unfolding data_loop data_round round_in do_read
    body_loop-Delivered zero all r p s buf k w more small counts room e enough =
        absurd (omega arith)
    body_loop-Delivered (suc fuel) all r p s buf k w more small counts room e enough =
        round_of fuel all r p s buf k w (read (max_message - length buf) w)
          (body_loop-Delivered fuel all) more small counts room e (omega arith)
          (read_law (max_message - length buf) w (omega arith))

    -- If the body of a request is being read, `remain_recv_len_` is not 0 and counts exactly the bytes that
    -- are still to come, the buffer is not full, `read` keeps to its contract, `budget`, the fuel, is at
    -- least their number, and `body` says which bytes
    -- `HandleBodyData` has been given, which the other handles leave alone, then `ReadData`
    -- returns. With kReadAll the handle has been given the
    -- buffer and all the bytes to come, in order and each once, however they are cut, nothing is left on the
    -- stream, and the next call begins a new request. With another status, as after EAGAIN, no byte is lost:
    -- what the handle has been given, the buffer and the bytes to come are still these bytes in order, some
    -- are still to come, and `remain_recv_len_` counts them.
    pub read_data-Delivered :
        (budget : W → ℕ) (r : HttpRequest) (p : Response) (s : S) (buf : Bytes) (k : ℕ) (w : W)
        → 0 < k
        → k < 2 ^ 64
        → k ≡ length (stream w)
        → length buf < max_message
        → length (stream w) ≤ budget w
        → Delivered (body s ++ (buf ++ stream w)) (
            read_data handle_request handle_body prepare_response conn_closed string_to_lower stoul
              read budget
              (body_conn r p s buf k)
              w)
    unfolding read_data read_in
    read_data-Delivered budget r p s buf k w more small counts room bounded =
        body_loop-Delivered (budget w + 3) (body s ++ (buf ++ stream w)) r p s buf k w more small
          counts room refl (omega arith)
