-- ===== src/Redis/Conn/Reply/Sending.antt =====
-- pink/src/redis_conn.cc: the bytes that `SendReply` sends.
use pink.Base.{
  ℕ, zero, suc, ◌-◌, ◌≤◌, ◌<◌, ◌≡◌, refl, sym, ap, ◌∙◌, Bool, true, false, List, [], ◌∷◌, ◌++◌,
  Option, none, some, length, take, drop, length-drop, length-append, subst, append_assoc,
  append-nil, take-append-drop, ◌==◌, ltb, if-elim, arith,
}
use pink.Redis.Chars.{Bytes}
use pink.Pb.Conn.{WriteStatus, write_all}
use pink.Redis.Conn.Reply.{
  Writev, wrote, again, deadlock, broken, Replies, non_empty, last_sent, all_bytes, on_error,
  by_result, after_writev, writev_loop, send_iov, send_items, send_started, send_reply, write_resp,
}

-- What `easy_writev` is documented to do: it sends bytes from the front of the vector, counts them if it
-- does not fail, and leaves what is left of each item; when the last item is sent, all of them are.
abbrev pub Counts : Writev → ℕ → Type 0
Counts (wrote n) k = n ≡ k
Counts r k = Unit

abbrev pub WritevLaw :
    {W : Type 0} → (W → Bytes) → List Bytes → W → Writev × List Bytes × W → Type 0
WritevLaw out iov w (r, left, v) =
    (k : ℕ) × (k ≤ length (all_bytes iov))
    × Counts r k
    × (out v ≡ out w ++ take k (all_bytes iov))
    × (all_bytes left ≡ drop k (all_bytes iov))
    × (last_sent left ≡ true → all_bytes left ≡ [])

-- The bytes that wait: the rest of a vector that is half sent, or the items.
abbrev waiting_in : Bool → Replies → Bytes
waiting_in true c = all_bytes c.iov
waiting_in false c = all_bytes c.response

abbrev pub waiting : Replies → Bytes
waiting c = waiting_in c.started c

-- All the bytes are sent, or the rest of them waits in the vector, whose last item is not sent.
abbrev pub Replied :
    {W : Type 0} → (W → Bytes) → Bytes → Option (WriteStatus × Replies × W) → Type 0
Replied out all none = ⊥
Replied out all (some (write_all, c, v)) = out v ≡ all
Replied out all (some (s, c, v)) =
    (c.started ≡ true) × (last_sent c.iov ≡ false) × (out v ++ all_bytes c.iov ≡ all)

moved : (o X : Bytes) (n : ℕ) → (o ++ take n X) ++ drop n X ≡ o ++ X
moved o X n = append_assoc o (take n X) (drop n X) ∙ ap (λ y. o ++ y) (take-append-drop n X)

all_bytes-non_empty : (xs : List Bytes) → all_bytes (non_empty xs) ≡ all_bytes xs
unfolding all_bytes non_empty
all_bytes-non_empty [] = refl
all_bytes-non_empty ([] ∷ xs) = all_bytes-non_empty xs
all_bytes-non_empty ((b ∷ x) ∷ xs) = ground (arith, ap (λ y. (b ∷ x) ++ y) (all_bytes-non_empty xs))

last_sent-cons :
    (x : Bytes) (ys : List Bytes)
    → 0 < length x
    → (0 < length ys → last_sent ys ≡ false)
    → last_sent (x ∷ ys) ≡ false
unfolding last_sent
last_sent-cons x [] full rest = ground arith
last_sent-cons x (y ∷ ys) full rest = rest (omega arith)

last_sent-non_empty :
    (xs : List Bytes) → 0 < length (non_empty xs) → last_sent (non_empty xs) ≡ false
unfolding non_empty last_sent
last_sent-non_empty [] h = absurd (omega arith)
last_sent-non_empty ([] ∷ xs) h = last_sent-non_empty xs h
last_sent-non_empty ((b ∷ x) ∷ xs) h =
    if-elim (λ ys. last_sent ys ≡ false) (length (b ∷ x) == 0) (λ e. absurd (ground arith))
      (λ e. last_sent-cons (b ∷ x) (non_empty xs) (omega arith) (last_sent-non_empty xs))

module _ {W : Type 0} (out : W → Bytes) where
  on_error-Replied :
      (r : Writev) (c : Replies) (w : W) (all : Bytes)
      → c.started ≡ true
      → last_sent c.iov ≡ false
      → out w ++ all_bytes c.iov ≡ all
      → Replied out all (some (on_error r c w))
  unfolding on_error
  on_error-Replied (wrote n) c w all st ls e = (st, ls, e)
  on_error-Replied again c w all st ls e = (st, ls, e)
  on_error-Replied deadlock c w all st ls e =
      if-elim (λ r. Replied out all (some r)) (ltb c.num_retry 5) (λ f. (st, ls, e))
        (λ f. (st, ls, e))
  on_error-Replied broken c w all st ls e = (st, ls, e)

  abbrev Next : ℕ → Bytes → (Replies → W → Option (WriteStatus × Replies × W)) → Type 0
  Next fuel all rest =
      (c : Replies) (w : W)
      → c.started ≡ true
      → last_sent c.iov ≡ false
      → out w ++ all_bytes c.iov ≡ all
      → length (all_bytes c.iov) < fuel
      → Replied out all (rest c w)

  by_result-Replied :
      (fuel : ℕ) (all : Bytes) (rest : Replies → W → Option (WriteStatus × Replies × W))
      (r : Writev) (c : Replies) (w : W) (k before : ℕ)
      → Next fuel all rest
      → c.started ≡ true
      → last_sent c.iov ≡ false
      → out w ++ all_bytes c.iov ≡ all
      → Counts r k
      → length (all_bytes c.iov) ≡ before - k
      → k ≤ before
      → before < suc fuel
      → Replied out all (by_result rest r c w)
  unfolding by_result
  by_result-Replied fuel all rest (wrote zero) c w k before next st ls e counts left le enough =
      on_error-Replied (wrote 0) c w all st ls e
  by_result-Replied fuel all rest (wrote (suc n)) c w k before next st ls e counts left le enough =
      next c w st ls e (omega (arith, left, counts, le, enough))
  by_result-Replied fuel all rest again c w k before next st ls e counts left le enough =
      on_error-Replied again c w all st ls e
  by_result-Replied fuel all rest deadlock c w k before next st ls e counts left le enough =
      on_error-Replied deadlock c w all st ls e
  by_result-Replied fuel all rest broken c w k before next st ls e counts left le enough =
      on_error-Replied broken c w all st ls e

  after_writev-Replied :
      (fuel : ℕ) (all : Bytes) (rest : Replies → W → Option (WriteStatus × Replies × W))
      (c : Replies) (w : W) (r : Writev × List Bytes × W)
      → Next fuel all rest
      → c.started ≡ true
      → last_sent c.iov ≡ false
      → out w ++ all_bytes c.iov ≡ all
      → length (all_bytes c.iov) < suc fuel
      → WritevLaw out c.iov w r
      → Replied out all (after_writev rest c r)
  unfolding after_writev
  after_writev-Replied fuel all rest c w (r, left, v) next st ls e enough
        (k, le, counts, sent, behind, last) =
      let now : out v ++ all_bytes left ≡ all =
        ap (λ x. x ++ all_bytes left) sent
        ∙ ap (λ x. (out w ++ take k (all_bytes c.iov)) ++ x) behind
        ∙ moved (out w) (all_bytes c.iov) k
        ∙ e in
      if-elim (Replied out all) (last_sent left)
        (λ f. sym (append-nil (out v)) ∙ ap (λ x. out v ++ x) (sym (last f)) ∙ now)
        (λ f.
          by_result-Replied fuel all rest r (record c { iov = left }) v k (length (all_bytes c.iov))
            next st f now counts (ap length behind ∙ length-drop k (all_bytes c.iov)) le enough)

  module _ (writev : List Bytes → W → Writev × List Bytes × W)
      (law : (iov : List Bytes) (w : W)
        → last_sent iov ≡ false
        → WritevLaw out iov w (writev iov w)) where
    writev_loop-Replied : (fuel : ℕ) (all : Bytes) → Next fuel all (writev_loop writev fuel)
    unfolding writev_loop
    writev_loop-Replied zero all c w st ls e enough = absurd (omega arith)
    writev_loop-Replied (suc fuel) all c w st ls e enough =
        after_writev-Replied fuel all (writev_loop writev fuel) c w (writev c.iov w)
          (writev_loop-Replied fuel all) st ls e enough (law c.iov w ls)

    send_iov-Replied :
        (c : Replies) (w : W) (all : Bytes)
        → c.started ≡ true
        → last_sent c.iov ≡ false
        → out w ++ all_bytes c.iov ≡ all
        → Replied out all (send_iov writev c w)
    unfolding send_iov
    send_iov-Replied c w all st ls e =
        writev_loop-Replied (suc (length (all_bytes c.iov))) all c w st ls e (omega arith)

    send_items-Replied :
        (c : Replies) (items : List Bytes) (w : W) (all : Bytes)
        → (0 < length items → last_sent items ≡ false)
        → out w ++ all_bytes items ≡ all
        → Replied out all (send_items writev c items w)
    unfolding send_items all_bytes
    send_items-Replied c [] w all ls e = sym (append-nil (out w)) ∙ e
    send_items-Replied c (x ∷ xs) w all ls e =
        send_iov-Replied (record c { iov = x ∷ xs; started = true }) w all refl (ls (omega arith)) e

    send_started-Replied :
        (b : Bool) (c : Replies) (w : W)
        → c.started ≡ b
        → (b ≡ true → last_sent c.iov ≡ false)
        → Replied out (out w ++ waiting_in b c) (send_started writev b c w)
    unfolding send_started
    send_started-Replied true c w st ls = send_iov-Replied c w _ st (ls refl) refl
    send_started-Replied false c w st ls =
        send_items-Replied c (non_empty c.response) w _ (last_sent-non_empty c.response)
          (ap (λ x. out w ++ x) (all_bytes-non_empty c.response))

    -- A response that is not empty is sent from where it stands.
    from_waiting :
        (c : Replies) (w : W)
        → 0 < length c.response
        → (c.started ≡ true → last_sent c.iov ≡ false)
        → Replied out (out w ++ waiting c) (send_reply writev c w)
    unfolding send_reply
    from_waiting c w full ls =
        if-elim (Replied out (out w ++ waiting c)) (length c.response == 0)
          (λ e. absurd (ground arith)) (λ e. send_started-Replied c.started c w refl ls)

    -- If `easy_writev` keeps to its contract and no vector is half sent, then `SendReply` of a response that
    -- is not empty returns; with kWriteAll it has sent the bytes of all its items, in order and each once,
    -- and with any other status a front part of them, and the rest waits in the vector.
    pub send_reply-response :
        (c : Replies) (w : W)
        → 0 < length c.response
        → c.started ≡ false
        → Replied out (out w ++ all_bytes c.response) (send_reply writev c w)
    send_reply-response c w full st =
        subst (λ b. Replied out (out w ++ waiting_in b c) (send_reply writev c w)) st
          (from_waiting c w full (λ t. absurd (unequal st t)))
      where
        unequal : {b : Bool} → b ≡ false → b ≡ true → ⊥
        unequal f t = cc

    -- If `easy_writev` keeps to its contract, a vector is half sent, its last item not yet, and `response_` has
    -- the capacity for another item, so that the items are not moved, then an item that `WriteResp` adds is
    -- not sent by the next `SendReply`: with kWriteAll this has sent the rest of the vector and no more, and
    -- with any other status a front part of it.
    pub send_reply-write_resp :
        (c : Replies) (w : W) (resp : Bytes)
        → c.started ≡ true
        → last_sent c.iov ≡ false
        → (d : Replies) × (write_resp true resp c ≡ some d)
          × Replied out (out w ++ all_bytes c.iov) (send_reply writev d w)
    unfolding write_resp
    send_reply-write_resp c w resp st ls =
        let d = record c { response = c.response ++ resp ∷ []; is_reply = true } in
        (
          d,
          refl,
          subst (λ b. Replied out (out w ++ waiting_in b d) (send_reply writev d w)) st
              (from_waiting d w (omega (arith, length-append c.response (resp ∷ []))) (λ t. ls)),
        )
