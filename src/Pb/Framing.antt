-- ===== src/Pb/Framing.antt =====
-- `GetRequest` of pink/src/pb_conn.cc on the stream of bytes of a socket.
use pink.Base.{
  ℕ, zero, suc, ◌+◌, ◌-◌, ◌%◌, ◌^◌, ◌≤◌, ◌<◌, ◌≡◌, ◌≢◌, refl, sym, ap, ◌∙◌, ◌⊎◌, inl, inr, Bool,
  true, false, [], ◌∷◌, ◌++◌, Option, none, some, ltb, ◌==◌, length, length-append, drop, ℤ, pos,
  negsuc, eqb_ℤ, arith, append_assoc, Bool-cases, subst,
}
use pink.Pb.Frame.{Bytes, ntohl_bytes}
use pink.Pb.Conn.{
  ReadStatus, received_header, received_packet, read_all, full_error, deal_error, Received, closed,
  got, ConnStatus, header, packet, complete, build_obuf, write_obuf, command_header_length,
  proto_max_message, PbConn, read_count, Round, go_on, returns, read_header, expand_rbuf,
  read_packet, packet_round, deal_complete, request_round, request_loop, get_request,
}

ntohl-append : (xs ys : Bytes) → 4 ≤ length xs → ntohl_bytes (xs ++ ys) ≡ ntohl_bytes xs
unfolding ntohl_bytes
ntohl-append [] ys h = absurd (omega arith)
ntohl-append (a ∷ []) ys h = absurd (omega arith)
ntohl-append (a ∷ b ∷ []) ys h = absurd (omega arith)
ntohl-append (a ∷ b ∷ c ∷ []) ys h = absurd (omega arith)
ntohl-append (a ∷ b ∷ c ∷ d ∷ xs) ys h = refl

eqb_ℤ-eq : (x : ℤ) → eqb_ℤ x (pos 0) ≡ true → x ≡ pos 0
eqb_ℤ-eq (pos n) h = ap pos (ground arith)
eqb_ℤ-eq (negsuc n) h = absurd (cc)

-- What `read` is documented to do: at most the count that is asked for, from the front of the stream.
abbrev pub ReadLaw : {W : Type 0} → (W → Bytes) → ℕ → W → Received × W → Type 0
ReadLaw stream n w (got bs, w') = (bs ≢ []) × (length bs ≤ n) × (stream w ≡ bs ++ stream w')
ReadLaw stream n w (_, w') = stream w' ≡ stream w

-- The buffer is bounded, and in the body of a message the counts fit together.
abbrev pub Counts : {C : Type 0} → ConnStatus → PbConn C → Type 0
Counts header c = length c.rbuf < 4
Counts packet c =
    (4 ≤ length c.rbuf)
    × (ntohl_bytes c.rbuf ≡ c.header_len)
    × (length c.rbuf + c.remain_packet_len ≡ 4 + c.header_len)
    × (c.header_len < 2 ^ 32 - 4)
Counts complete c =
    (4 ≤ length c.rbuf) × (ntohl_bytes c.rbuf ≡ c.header_len) × (length c.rbuf ≡ 4 + c.header_len)
Counts _ c = ⊥

pub record IsValid {C : Type 0} (c : PbConn C) : Type 0 where
  pub has_rbuf : c.no_rbuf ≡ false
  pub room : 4 ≤ c.rbuf_len
  pub bounded : c.rbuf_len ≤ proto_max_message
  pub fits : length c.rbuf ≤ c.rbuf_len
  pub counts : Counts c.conn_status c

module _ {C W : Type 0} (read : ℕ → W → Received × W) (deal : C → Bytes → C × ℤ)
    (realloc : ℕ → Bool) (stream : W → Bytes)
    (law : (n : ℕ) (w : W) → ReadLaw stream n w (read n w)) where
  -- The bytes that the connection has not yet dealt with.
  abbrev pub unread : PbConn C → W → Bytes
  unread c w = c.rbuf ++ stream w

  -- A round that goes on is in a later state of the same message.
  abbrev rank : ConnStatus → ℕ
  rank header = 2
  rank packet = 1
  rank _ = 0

  rank-lt : (s : ConnStatus) → rank s < 3
  rank-lt header = omega arith
  rank-lt packet = omega arith
  rank-lt complete = omega arith
  rank-lt build_obuf = omega arith
  rank-lt write_obuf = omega arith

  -- How a call ends, from the unread bytes u and the service v: a message has been taken from the front and
  -- dealt with, or all is still unread.
  abbrev pub Answer : Bytes → C → ReadStatus → PbConn C → W → Type 0
  Answer u v read_all d w =
      (m : Bytes) × (u ≡ m ++ unread d w)
      × (4 ≤ length m)
      × (length m ≡ 4 + ntohl_bytes m)
      × (d.service ≡ (deal v (drop 4 m)).0)
      × ((deal v (drop 4 m)).1 ≡ pos 0)
      × (d.conn_status ≡ header)
      × IsValid d
  Answer u v deal_error d w =
      (unread d w ≡ u) × (d.service ≡ (deal v (drop 4 d.rbuf)).0) × IsValid d
  Answer u v full_error d w =
      (d.service ≡ v)
      × (((unread d w ≡ u) × IsValid d) ⊎ ((d.no_rbuf ≡ true) × ((n : ℕ) × (realloc n ≡ false))))
  Answer u v s d w = (unread d w ≡ u) × (d.service ≡ v) × IsValid d

  abbrev RoundOk : Bytes → C → ℕ → Round (PbConn C × W) → Type 0
  RoundOk u v n (go_on (d, w)) =
      (unread d w ≡ u) × (d.service ≡ v) × IsValid d × (rank d.conn_status < n)
  RoundOk u v n (returns s (d, w)) = Answer u v s d w

  small_append :
      (xs ys zs : Bytes) (b : ℕ)
      → 4 ≤ length xs
      → xs ++ ys ≡ zs
      → ntohl_bytes zs < b
      → ntohl_bytes xs < b
  small_append xs ys zs b long e h =
      let f = ntohl-append xs ys long in let g = ap ntohl_bytes e in omega arith

  received_header-RoundOk :
      (c : PbConn C) (w : W)
      → c.conn_status ≡ header
      → IsValid c
      → ntohl_bytes (unread c w) < 2 ^ 32 - 4
      → (rw : Received × W) → ReadLaw stream (4 - length c.rbuf) w rw
      → RoundOk (unread c w) c.service (rank c.conn_status) (received_header c rw)
  unfolding received_header
  received_header-RoundOk c w at v small (Received.again, w') l = (ap (λ s. c.rbuf ++ s) l, refl, v)
  received_header-RoundOk c w at v small (Received.failed, w') l =
      (ap (λ s. c.rbuf ++ s) l, refl, v)
  received_header-RoundOk c w at v small (closed, w') l = (ap (λ s. c.rbuf ++ s) l, refl, v)
  received_header-RoundOk c w at v small (got bs, w') l =
      let kept : (c.rbuf ++ bs) ++ stream w' ≡ unread c w =
        append_assoc c.rbuf bs (stream w') ∙ ap (λ x. c.rbuf ++ x) (sym l.2) in
      let size = length-append c.rbuf bs in
      let few = l.1 in
      let room = v.room in
      let short : length c.rbuf < 4 = subst (λ s. Counts s c) at v.counts in
      elim (Bool-cases (length (c.rbuf ++ bs) == command_header_length)) [
        | inr less ↦ rw less (
          kept,
          refl,
          record {
            has_rbuf = v.has_rbuf;
            room = v.room;
            bounded = v.bounded;
            fits = omega arith;
            counts = rw at (ground arith);
          },
        )
        | inl full ↦
            let long : length (c.rbuf ++ bs) ≡ 4 = ground arith in
            rw full (
              kept,
              refl,
              record {
                has_rbuf = v.has_rbuf;
                room = v.room;
                bounded = v.bounded;
                fits = omega arith;
                counts = (
                  omega arith,
                  refl,
                  omega arith,
                  small_append (c.rbuf ++ bs) (stream w') (unread c w) (2 ^ 32 - 4) (omega arith)
                      kept small,
                );
              },
              rw at (omega arith),
            )
      ]

  read_count-small : (n : ℕ) → n < 2 ^ 31 → read_count n ≡ n
  read_count-small n h = ground arith

  received_packet-RoundOk :
      (c : PbConn C) (w : W)
      → c.conn_status ≡ packet
      → IsValid c
      → 4 + c.header_len ≤ c.rbuf_len
      → (rw : Received × W) → ReadLaw stream c.remain_packet_len w rw
      → RoundOk (unread c w) c.service (rank c.conn_status) (received_packet c rw)
  unfolding received_packet
  received_packet-RoundOk c w at v enough (Received.again, w') l =
      (ap (λ s. c.rbuf ++ s) l, refl, v)
  received_packet-RoundOk c w at v enough (Received.failed, w') l =
      (ap (λ s. c.rbuf ++ s) l, refl, v)
  received_packet-RoundOk c w at v enough (closed, w') l = (ap (λ s. c.rbuf ++ s) l, refl, v)
  received_packet-RoundOk c w at v enough (got bs, w') l =
      let kept : (c.rbuf ++ bs) ++ stream w' ≡ unread c w =
        append_assoc c.rbuf bs (stream w') ∙ ap (λ x. c.rbuf ++ x) (sym l.2) in
      let size = length-append c.rbuf bs in
      let few = l.1 in
      let (long, head, sum, small) : Counts packet c = subst (λ s. Counts s c) at v.counts in
      let head' = ntohl-append c.rbuf bs long ∙ head in
      let left : (c.remain_packet_len + 2 ^ 32 - length bs) % 2 ^ 32
          ≡ c.remain_packet_len - length bs =
        omega arith in
      rw left (elim (Bool-cases ((c.remain_packet_len - length bs) == 0)) [
        | inr more ↦ rw more (
          kept,
          refl,
          record {
            has_rbuf = v.has_rbuf;
            room = v.room;
            bounded = v.bounded;
            fits = omega arith;
            counts = rw at (omega arith, head', omega arith, small);
          },
        )
        | inl done ↦ rw done (
          kept,
          refl,
          record {
            has_rbuf = v.has_rbuf;
            room = v.room;
            bounded = v.bounded;
            fits = omega arith;
            counts = (omega arith, head', ground arith);
          },
          rw at (omega arith),
        )
      ])

  expand_rbuf-cases :
      (c : PbConn C)
      → IsValid c
      → c.header_len < 2 ^ 32 - 4
      → ((expand_rbuf read deal realloc c ≡ none)
          ⊎ ((expand_rbuf read deal realloc c ≡ some (record c { no_rbuf = true }))
              × ((n : ℕ) × (realloc n ≡ false))))
        ⊎ ((n : ℕ) × (expand_rbuf read deal realloc c
              ≡ some (record c { rbuf_len = n; no_rbuf = false }))
            × (c.rbuf_len ≤ n)
            × (4 + c.header_len ≤ n)
            × (n ≤ proto_max_message))
  unfolding expand_rbuf
  expand_rbuf-cases c v small =
      let room = v.room in
      let bounded = v.bounded in
      let size : (c.rbuf_len + 2 ^ 32 - 4) % 2 ^ 32 ≡ c.rbuf_len - 4 = omega arith in
      let grown : (c.header_len + 4) % 2 ^ 32 ≡ c.header_len + 4 = omega arith in
      rw size (
        rw grown (elim (Bool-cases (ltb (c.rbuf_len - 4) c.header_len)) [
          | inr not_so ↦ rw not_so (
              inr (
                c.rbuf_len,
                ap (λ b. some (record c { no_rbuf = b })) v.has_rbuf,
                omega arith,
                ground arith,
                bounded,
              ))
          | inl grow ↦ rw grow (elim (Bool-cases (ltb (c.header_len + 4) proto_max_message)) [
            | inr not_so ↦ rw not_so (inl (inl refl))
            | inl short ↦ rw short (elim (Bool-cases (realloc (c.header_len + 4))) [
              | inr not_so ↦ rw not_so (inl (inr (refl, (c.header_len + 4, not_so))))
              | inl given ↦
                  rw given (inr (c.header_len + 4, refl, ground arith, omega arith, ground arith))
            ])
          ])
        ]))

  deal_complete-RoundOk :
      (c : PbConn C) (w : W)
      → c.conn_status ≡ complete
      → IsValid c
      → RoundOk (unread c w) c.service (rank c.conn_status) (deal_complete read deal realloc c w)
  unfolding deal_complete
  deal_complete-RoundOk c w at v =
      let (long, head, sum) : Counts complete c = subst (λ s. Counts s c) at v.counts in
      elim (Bool-cases (eqb_ℤ (deal c.service (drop command_header_length c.rbuf)).1 (pos 0))) [
        | inl dealt ↦ rw dealt (
          c.rbuf,
          refl,
          long,
          omega arith,
          refl,
          eqb_ℤ-eq _ dealt,
          refl,
          record {
            has_rbuf = v.has_rbuf;
            room = v.room;
            bounded = v.bounded;
            fits = omega arith;
            counts = omega arith;
          },
        )
        | inr refused ↦ rw refused (
          refl,
          refl,
          record {
            has_rbuf = v.has_rbuf;
            room = v.room;
            bounded = v.bounded;
            fits = v.fits;
            counts = rw at (long, head, sum);
          },
        )
      ]

  request_round-RoundOk :
      (c : PbConn C) (w : W) (s : ConnStatus)
      → c.conn_status ≡ s
      → IsValid c
      → ntohl_bytes (unread c w) < 2 ^ 32 - 4
      → RoundOk (unread c w) c.service (rank c.conn_status) (request_round read deal realloc c w)
  unfolding request_round packet_round read_header read_packet
  request_round-RoundOk c w header at v small =
      let e : request_round read deal realloc c w ≡ read_header read deal realloc c w =
        rw at refl in
      rw e (
        received_header-RoundOk c w at v small (read (4 - length c.rbuf) w)
          (law (4 - length c.rbuf) w))
  request_round-RoundOk c w packet at v small =
      let (long, head, sum, short) : Counts packet c = subst (λ s. Counts s c) at v.counts in
      let e : request_round read deal realloc c w ≡ packet_round read deal realloc c w =
        rw at refl in
      rw e (elim (expand_rbuf-cases c v short) [
        | inl (inl full) ↦ rw (full, packet_round) (refl, inl (refl, v))
        | inl (inr (lost, fails)) ↦ rw (lost, packet_round) (refl, inr (refl, fails))
        | inr (n, grown, more, enough, most) ↦
            let d : PbConn C = record c { rbuf_len = n; no_rbuf = false } in
            let fits = v.fits in
            let room = v.room in
            let count = read_count-small c.remain_packet_len (omega arith) in
            let at_most : ReadLaw stream c.remain_packet_len w
                (read (read_count c.remain_packet_len) w) =
              subst (λ k. ReadLaw stream k w (read (read_count c.remain_packet_len) w)) count
                (law (read_count c.remain_packet_len) w) in
            rw (grown, packet_round)
              (received_packet-RoundOk d w at
                (record {
                  has_rbuf = refl;
                  room = omega arith;
                  bounded = most;
                  fits = omega arith;
                  counts = rw at (long, head, sum, short);
                })
                enough (read (read_count c.remain_packet_len) w) at_most)
      ])
  request_round-RoundOk c w complete at v small =
      let e : request_round read deal realloc c w ≡ deal_complete read deal realloc c w =
        rw at refl in
      rw e (deal_complete-RoundOk c w at v)
  request_round-RoundOk c w build_obuf at v small = absurd (subst (λ s. Counts s c) at v.counts)
  request_round-RoundOk c w write_obuf at v small = absurd (subst (λ s. Counts s c) at v.counts)

  abbrev pub Answered : Bytes → C → Option (ReadStatus × PbConn C × W) → Type 0
  Answered u v none = ⊥
  Answered u v (some (s, d, w)) = Answer u v s d w

  request_loop-Answered :
      (fuel : ℕ) (c : PbConn C) (w : W)
      → IsValid c
      → ntohl_bytes (unread c w) < 2 ^ 32 - 4
      → rank c.conn_status < fuel
      → Answered (unread c w) c.service (request_loop read deal realloc fuel c w)
  unfolding request_loop
  request_loop-Answered zero c w v small enough = absurd (omega arith)
  request_loop-Answered (suc fuel) c w v small enough =
      go (request_round read deal realloc c w)
        (request_round-RoundOk c w c.conn_status refl v small)
        (λ d w' v' h n. request_loop-Answered fuel d w' v' h n)
    where
      go :
          (r : Round (PbConn C × W))
          → RoundOk (unread c w) c.service (rank c.conn_status) r
          → ((d : PbConn C) (w' : W)
              → IsValid d
              → ntohl_bytes (unread d w') < 2 ^ 32 - 4
              → rank d.conn_status < fuel
              → Answered (unread d w') d.service (request_loop read deal realloc fuel d w'))
          → Answered (unread c w) c.service (elim r [
            | returns s (d, w') ↦ some (s, d, w')
            | go_on (d, w') ↦ request_loop read deal realloc fuel d w'
          ])
      go (returns s (d, w')) h rec = h
      go (go_on (d, w')) (bytes, kept, v', less) rec =
          rw (sym bytes, sym kept) (rec d w' v' (rw bytes small) (omega arith))

  -- If `read` gives at most the bytes that it is asked for, from the front of the stream, then on a
  -- valid connection whose next message has a length below 2^32 - 4 in its head, a call ends after
  -- at most three rounds of its loop, whatever the pieces that `read` delivers: either it deals with
  -- exactly the next message of the unread bytes, head and body, or no unread byte is lost, and the
  -- connection stays valid, so that the buffer has room for all that is in it; or `realloc` has failed, and
  -- then the call returns kFullError with `rbuf_` NULL and has dealt with nothing.
  pub get_request-Answered :
      (c : PbConn C) (w : W)
      → IsValid c
      → ntohl_bytes (unread c w) < 2 ^ 32 - 4
      → Answered (unread c w) c.service (get_request read deal realloc c w)
  unfolding get_request
  get_request-Answered c w v small = request_loop-Answered 3 c w v small (rank-lt c.conn_status)
