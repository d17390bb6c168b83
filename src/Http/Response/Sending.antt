-- ===== src/Http/Response/Sending.antt =====
-- `Flush` and `SendReply` of pink/src/http_conn.cc: the bytes that are sent.
use pink.Base.{
  ℕ, ◌+◌, ◌^◌, ◌<◌, ◌≡◌, refl, sym, ap, ◌∙◌, subst, Bool, true, false, [], ◌++◌, none, Option, some,
  length, drop, length-drop, append-nil, arith, if-elim, ◌==◌, ltb,
}
use pink.PubSub.Tables.{Bytes}
use pink.Pb.Conn.{Sent, again, failed, wrote}
use pink.Http.Response.{
  Response, ResponseStatus, prepare_header, sending_header, sending_body, Body, Flow, next, returns,
  header_sent, flush_header, after_header, flush_prepared, flush, flush_in, body_in, max_header,
  serialize_header, prepared,
}
use pink.Http.Response.Filling.{
  FillLaw, SendLaw, FitsIn, Fits, header_of, starting, to_start, Good, Unfinished, false_ne_true,
  moved, nil_of, nothing_taken, flush_body-Good,
}

module _ {W : Type 0} (out made : W → Bytes) where
  module _ (write : Bytes → W → Sent × W) (write_response_body : ℕ → W → Body × W)
      (write_law : (bs : Bytes) (w : W) → SendLaw out made bs w (write bs w))
      (fill_law : (n : ℕ) (w : W) → FillLaw out made n w (write_response_body n w)) where
    abbrev Started : ResponseStatus → Type 0
    Started prepare_header = ⊥
    Started s = Unit

    unchanged :
        (b : Bool) (p : Response) (v : W) (all before : Bytes)
        → p.resp_status ≡ sending_header
        → Unfinished p
        → p.remain_send_len < 2 ^ 64
        → made v ≡ before
        → out v ++ p.wbuf ≡ all
        → Good out made all before (b, p, v)
    unchanged b p v all before st unfin small m e = (
      [],
      m ∙ sym (append-nil before),
      e ∙ sym (append-nil all),
      (small, subst (λ s. FitsIn s p) (sym st) tt),
      false_ne_true unfin,
    )

    -- What the header's part leaves.
    abbrev FlowGood : Bytes → Bytes → Flow W → Type 0
    FlowGood all before (returns b p v) = Good out made all before (b, p, v)
    FlowGood all before (next p v) =
        (made v ≡ before)
        × (out v ++ p.wbuf ≡ all)
        × (p.remain_send_len < 2 ^ 64)
        × Unfinished p
        × FitsIn p.resp_status p
        × Started p.resp_status

    header_sent-FlowGood :
        (p : Response) (w : W) (all before : Bytes) (r : Sent × W)
        → p.resp_status ≡ sending_header
        → Unfinished p
        → p.remain_send_len < 2 ^ 64
        → made w ≡ before
        → out w ++ p.wbuf ≡ all
        → SendLaw out made p.wbuf w r
        → FlowGood all before (header_sent p r)
    unfolding header_sent
    header_sent-FlowGood p w all before (again, v) st unfin small m e law =
        unchanged true p v all before st unfin small (law.1 ∙ m) (ap (λ x. x ++ p.wbuf) law.0 ∙ e)
    header_sent-FlowGood p w all before (failed, v) st unfin small m e law =
        unchanged false p v all before st unfin small (law.1 ∙ m) (ap (λ x. x ++ p.wbuf) law.0 ∙ e)
    header_sent-FlowGood p w all before (wrote n, v) st unfin small m e law =
        if-elim (FlowGood all before) (n == 0)
          (λ z.
            unchanged false p v all before st unfin small (law.1 ∙ m)
              (ap (λ x. x ++ p.wbuf) (law.0.1 ∙ nothing_taken (out w) p.wbuf n (ground arith)) ∙ e))
          (λ z.
            let sent : out v ++ drop n p.wbuf ≡ all =
              ap (λ x. x ++ drop n p.wbuf) law.0.1 ∙ moved (out w) p.wbuf n ∙ e in
            let left : Response = record p { wbuf = drop n p.wbuf; wbuf_pos = p.wbuf_pos + n } in
            if-elim (FlowGood all before) (n == length p.wbuf)
              (λ whole.
                let empty : drop n p.wbuf ≡ [] =
                  nil_of (drop n p.wbuf) (ground (arith, length-drop n p.wbuf)) in
                let all_sent : out v ++ [] ≡ all = ap (λ x. out v ++ x) (sym empty) ∙ sent in
                if-elim (FlowGood all before) (p.status_code == 100)
                  (λ c. (
                    [],
                    law.1 ∙ m ∙ sym (append-nil before),
                    all_sent ∙ sym (append-nil all),
                    (small, refl),
                    λ f. refl,
                  ))
                  (λ c. (law.1 ∙ m, all_sent, small, unfin, omega arith, tt)))
              (λ part. (
                law.1 ∙ m,
                sent,
                small,
                unfin,
                subst (λ s. FitsIn s left) (sym st) tt,
                subst Started (sym st) tt,
              )))

    body_in-Good :
        (s : ResponseStatus) (p : Response) (w : W) (all before : Bytes)
        → p.resp_status ≡ s
        → FitsIn s p
        → Unfinished p
        → p.remain_send_len < 2 ^ 64
        → made w ≡ before
        → out w ++ p.wbuf ≡ all
        → Started s
        → Good out made all before (body_in write write_response_body s p w)
    unfolding body_in
    body_in-Good prepare_header p w all before st fits unfin small m e started = absurd started
    body_in-Good sending_header p w all before st fits unfin small m e started =
        unchanged true p w all before st unfin small m e
    body_in-Good sending_body p w all before st fits unfin small m e started =
        flush_body-Good out made write write_response_body write_law fill_law p w all before st
          unfin small fits m e

    after_header-Good :
        (all before : Bytes) (f : Flow W)
        → FlowGood all before f
        → Good out made all before (after_header write write_response_body f)
    unfolding after_header
    after_header-Good all before (returns b p v) g = g
    after_header-Good all before (next p v) (m, e, small, unfin, fits, started) =
        body_in-Good p.resp_status p v all before refl fits unfin small m e started

    -- The response with its header.
    abbrev IsPrepared : Response → Option Response → Type 0
    IsPrepared p none = Unit
    IsPrepared p (some q) =
        (q.resp_status ≡ sending_header)
        × (q.finished ≡ p.finished)
        × (q.remain_send_len ≡ p.remain_send_len)

    prepared-IsPrepared : (p : Response) (o : Option Bytes) → IsPrepared p (prepared p o)
    unfolding prepared
    prepared-IsPrepared p none = tt
    prepared-IsPrepared p (some bs) =
        if-elim (IsPrepared p) (ltb max_header (length bs)) (λ e. tt) (λ e. (refl, refl, refl))

    flush_prepared-Good :
        (p : Response) (w : W) (all : Bytes) (o : Option Response)
        → p.resp_status ≡ prepare_header
        → Unfinished p
        → p.remain_send_len < 2 ^ 64
        → p.wbuf ≡ []
        → all ≡ out w ++ header_of o
        → IsPrepared p o
        → Good out made all (made w) (flush_prepared write write_response_body w p o)
    unfolding flush_prepared flush_header
    flush_prepared-Good p w all none st unfin small empty e is = (
      [],
      sym (append-nil (made w)),
      ap (λ x. out w ++ x) empty ∙ sym e ∙ sym (append-nil all),
      (small, subst (λ s. FitsIn s p) (sym st) empty),
      false_ne_true unfin,
    )
    flush_prepared-Good p w all (some q) st unfin small empty e (stq, same, left) =
        after_header-Good all (made w) (header_sent q (write q.wbuf w)) (
          header_sent-FlowGood q w all (made w) (write q.wbuf w) stq (same ∙ unfin)
            (omega (arith, left, small)) refl (sym e) (write_law q.wbuf w))

    flush_in-Good :
        (s : ResponseStatus) (p : Response) (w : W)
        → p.resp_status ≡ s
        → FitsIn s p
        → Unfinished p
        → p.remain_send_len < 2 ^ 64
        → Good out made
            (out w ++ (p.wbuf ++ starting s p))
            (made w)
            (flush_in write write_response_body s p w)
    unfolding flush_in flush_header
    flush_in-Good prepare_header p w st fits unfin small =
        let o = prepared p (serialize_header p) in
        flush_prepared-Good p w (out w ++ (p.wbuf ++ header_of o)) o st unfin small fits
          (ap (λ x. out w ++ (x ++ header_of o)) fits) (prepared-IsPrepared p (serialize_header p))
    flush_in-Good sending_header p w st fits unfin small =
        let all = out w ++ (p.wbuf ++ []) in
        after_header-Good all (made w) (header_sent p (write p.wbuf w)) (
          header_sent-FlowGood p w all (made w) (write p.wbuf w) st unfin small refl
            (ap (λ x. out w ++ x) (sym (append-nil p.wbuf))) (write_law p.wbuf w))
    flush_in-Good sending_body p w st fits unfin small =
        flush_body-Good out made write write_response_body write_law fill_law p w
          (out w ++ (p.wbuf ++ [])) (made w) st unfin small fits refl
          (ap (λ x. out w ++ x) (sym (append-nil p.wbuf)))

    -- If `write` takes at most the bytes that it is given, from their front, the handle fills at most the
    -- bytes that it is asked for, the response is not finished, no more of a body waits than is to be sent
    -- and nothing waits before a header, then `Flush` sends, in order and each byte once, the bytes that
    -- waited, the header when it was not printed yet, and the bytes that the handle fills, up to those that
    -- wait in the buffer afterwards; and a response that it finishes leaves no byte waiting. This holds for
    -- each result of `write` and of the handle, and again for the response that `Flush` leaves.
    pub flush-Good :
        (p : Response) (w : W)
        → Fits p
        → p.finished ≡ false
        → Good out made
            (out w ++ (p.wbuf ++ to_start p))
            (made w)
            (flush write write_response_body p w)
    unfolding flush
    flush-Good p w (small, fits) unfin = flush_in-Good p.resp_status p w refl fits unfin small
