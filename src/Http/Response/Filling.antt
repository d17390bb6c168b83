-- ===== src/Http/Response/Filling.antt =====
-- `Flush` of pink/src/http_conn.cc: the part of it that sends the body.
use pink.Base.{
  ℕ, ◌+◌, ◌-◌, ◌%◌, ◌^◌, ◌≤◌, ◌<◌, ◌≡◌, refl, sym, ap, ◌∙◌, subst, Bool, true, false, [], ◌∷◌, ◌++◌,
  none, Option, some, length, take, drop, length-drop, append_assoc, append-nil, take-append-drop,
  arith, if-elim, ◌==◌, if◌then◌else◌,
}
use pink.PubSub.Tables.{Bytes}
use pink.Pb.Conn.{Sent, again, failed, wrote}
use pink.Pb.Sending.{WriteLaw}
use pink.Http.Response.{
  Response, ResponseStatus, prepare_header, sending_header, sending_body, Body, body, negative,
  body_sent, needed_size, filled_body, flush_body, max_message, serialize_header, prepared,
}

-- What the handle that fills the body is documented to do: it fills at most the bytes that it is asked for.
-- `made` is what it has filled in all, and `out` what has been sent.
abbrev pub FillLaw : {W : Type 0} → (W → Bytes) → (W → Bytes) → ℕ → W → Body × W → Type 0
FillLaw out made n w (body bs, v) = (length bs ≤ n) × (made v ≡ made w ++ bs) × (out v ≡ out w)
FillLaw out made n w (negative, v) = (made v ≡ made w) × (out v ≡ out w)

-- `write` besides does not touch what the handle makes.
abbrev pub SendLaw : {W : Type 0} → (W → Bytes) → (W → Bytes) → Bytes → W → Sent × W → Type 0
SendLaw out made bs w r = WriteLaw out bs w r × (made r.1 ≡ made w)

-- Nothing waits before a header, and of a body no more waits than is to be sent.
abbrev pub FitsIn : ResponseStatus → Response → Type 0
FitsIn prepare_header p = p.wbuf ≡ []
FitsIn sending_header p = Unit
FitsIn sending_body p = length p.wbuf ≤ p.remain_send_len

abbrev pub Fits : Response → Type 0
Fits p = (p.remain_send_len < 2 ^ 64) × FitsIn p.resp_status p

-- The header that `Flush` adds.
abbrev pub header_of : Option Response → Bytes
header_of none = []
header_of (some q) = q.wbuf

abbrev pub starting : ResponseStatus → Response → Bytes
starting prepare_header p = header_of (prepared p (serialize_header p))
starting s p = []

abbrev pub to_start : Response → Bytes
to_start p = starting p.resp_status p

abbrev pub Unfinished : Response → Type 0
Unfinished p = p.finished ≡ false

pub false_ne_true : {b : Bool} {A : Type 0} → b ≡ false → b ≡ true → A
false_ne_true e f = absurd (cc)

pub moved : (o X : Bytes) (n : ℕ) → (o ++ take n X) ++ drop n X ≡ o ++ X
moved o X n = append_assoc o (take n X) (drop n X) ∙ ap (λ y. o ++ y) (take-append-drop n X)

pub nil_of : (xs : Bytes) → length xs ≡ 0 → xs ≡ []
nil_of [] h = refl
nil_of (x ∷ xs) h = absurd (omega arith)

pub nothing_taken : (o X : Bytes) (n : ℕ) → n ≡ 0 → o ++ take n X ≡ o
nothing_taken o X n e = ap (λ k. o ++ take k X) e ∙ append-nil o

module _ {W : Type 0} (out made : W → Bytes) where
  -- What has been sent and what waits are the old bytes and those that the handle has made since, and
  -- nothing waits when the response is finished.
  abbrev pub Good : Bytes → Bytes → Bool × Response × W → Type 0
  Good all before (b, p, v) =
      (new : Bytes) × (made v ≡ before ++ new)
      × (out v ++ p.wbuf ≡ all ++ new)
      × Fits p
      × (p.finished ≡ true → p.wbuf ≡ [])

  body_sent-Good :
      (p : Response) (w : W) (all before new : Bytes) (r : Sent × W)
      → p.resp_status ≡ sending_body
      → Unfinished p
      → p.remain_send_len < 2 ^ 64
      → length p.wbuf ≤ p.remain_send_len
      → made w ≡ before ++ new
      → out w ++ p.wbuf ≡ all ++ new
      → SendLaw out made p.wbuf w r
      → Good all before (body_sent p r)
  unfolding body_sent
  body_sent-Good p w all before new (again, v) st unfin small fits m e law = (
    new,
    law.1 ∙ m,
    ap (λ x. x ++ p.wbuf) law.0 ∙ e,
    (small, subst (λ s. FitsIn s p) (sym st) fits),
    false_ne_true unfin,
  )
  body_sent-Good p w all before new (failed, v) st unfin small fits m e law = (
    new,
    law.1 ∙ m,
    ap (λ x. x ++ p.wbuf) law.0 ∙ e,
    (small, subst (λ s. FitsIn s p) (sym st) fits),
    false_ne_true unfin,
  )
  body_sent-Good p w all before new (wrote n, v) st unfin small fits m e law =
      if-elim (Good all before) (n == 0)
        (λ z. (
          new,
          law.1 ∙ m,
          ap (λ x. x ++ p.wbuf) (law.0.1 ∙ nothing_taken (out w) p.wbuf n (ground arith)) ∙ e,
          (small, subst (λ s. FitsIn s p) (sym st) fits),
          false_ne_true unfin,
        ))
        (λ z.
          let left = (p.remain_send_len + 2 ^ 64 - n) % 2 ^ 64 in
          let here = if p.wbuf_pos + n == max_message then 0 else p.wbuf_pos + n in
          let q = record p { wbuf = drop n p.wbuf; wbuf_pos = here; remain_send_len = left } in
          (
            new,
            law.1 ∙ m,
            ap (λ x. x ++ drop n p.wbuf) law.0.1 ∙ moved (out w) p.wbuf n ∙ e,
            (
              omega arith,
              subst (λ s. FitsIn s q) (sym st)
                  (omega (arith, length-drop n p.wbuf, law.0.0, fits, small)),
            ),
            false_ne_true unfin,
          ))

  module _ (write : Bytes → W → Sent × W) (write_response_body : ℕ → W → Body × W)
      (write_law : (bs : Bytes) (w : W) → SendLaw out made bs w (write bs w))
      (fill_law : (n : ℕ) (w : W) → FillLaw out made n w (write_response_body n w)) where
    filled_body-Good :
        (p : Response) (w : W) (all before : Bytes) (r : Body × W)
        → p.resp_status ≡ sending_body
        → Unfinished p
        → p.remain_send_len < 2 ^ 64
        → length p.wbuf ≡ 0
        → made w ≡ before
        → out w ++ p.wbuf ≡ all
        → FillLaw out made (needed_size p) w r
        → Good all before (filled_body write write_response_body p r)
    unfolding filled_body
    filled_body-Good p w all before (negative, v) st unfin small empty m e law = (
      [],
      law.0 ∙ m ∙ sym (append-nil before),
      ap (λ x. x ++ p.wbuf) law.1 ∙ e ∙ sym (append-nil all),
      (small, subst (λ s. FitsIn s p) (sym st) (omega arith)),
      false_ne_true unfin,
    )
    filled_body-Good p w all before (body bs, v) st unfin small empty m e law =
        let alone : out w ≡ all =
          sym (append-nil (out w)) ∙ ap (λ x. out w ++ x) (sym (nil_of p.wbuf empty)) ∙ e in
        body_sent-Good (record p { wbuf = bs }) v all before bs (write bs v) st unfin small
          (ground (arith, law.0)) (law.1 ∙ ap (λ x. x ++ bs) m) (ap (λ x. x ++ bs) (law.2 ∙ alone))
          (write_law bs v)

    pub flush_body-Good :
        (p : Response) (w : W) (all before : Bytes)
        → p.resp_status ≡ sending_body
        → Unfinished p
        → p.remain_send_len < 2 ^ 64
        → length p.wbuf ≤ p.remain_send_len
        → made w ≡ before
        → out w ++ p.wbuf ≡ all
        → Good all before (flush_body write write_response_body p w)
    unfolding flush_body
    flush_body-Good p w all before st unfin small fits m e =
        if-elim (Good all before) (p.remain_send_len == 0)
          (λ done.
            let empty = nil_of p.wbuf (ground arith) in
            ([], m ∙ sym (append-nil before), e ∙ sym (append-nil all), (small, empty), λ f. empty))
          (λ more.
            if-elim (Good all before) (length p.wbuf == 0)
              (λ empty.
                filled_body-Good p w all before (write_response_body (needed_size p) w) st unfin
                  small (ground arith) m e (fill_law (needed_size p) w))
              (λ full.
                body_sent-Good p w all before [] (write p.wbuf w) st unfin small fits
                  (m ∙ sym (append-nil before)) (e ∙ sym (append-nil all)) (write_law p.wbuf w)))
