-- ===== src/Pb/Sending.antt =====
-- `SendReply` of pink/src/pb_conn.cc on its queue of items.
use pink.Base.{
  ℕ, zero, suc, ◌+◌, ◌-◌, ◌%◌, ◌^◌, ◌≤◌, ◌<◌, ◌≡◌, refl, sym, ap, ◌∙◌, inl, inr, List, [], ◌∷◌,
  ◌++◌, Option, none, true, some, ltb, ◌==◌, length, take, drop, arith, ℤ, append_assoc, append-nil,
  take-append-drop, length-drop, drop-drop, Bool-cases, subst,
}
use pink.Pb.Frame.{Bytes}
use pink.Pb.Conn.{WriteStatus, write_all, Sent, again, failed, wrote}
use pink.Pb.Reply.{
  WriteBuf, Stop, sent, blocked, broken, stalled, wrote_some, write_item, after_item, reply_turn,
  reply_loop, send_reply,
}

-- The bytes that are still to be sent.
abbrev pub bytes_of : List Bytes → Bytes
bytes_of [] = []
bytes_of (item ∷ rest) = item ++ bytes_of rest

abbrev pub pending_from : ℕ → List Bytes → Bytes
pending_from pos [] = []
pending_from pos (item ∷ rest) = drop pos item ++ bytes_of rest

-- An item is not empty, and its length is a `size_t`.
abbrev pub Sendable : List Bytes → Type 0
Sendable [] = Unit
Sendable (item ∷ rest) = (0 < length item) × (length item < 2 ^ 63) × Sendable rest

-- The position is inside the first item.
abbrev pub Inside : ℕ → List Bytes → Type 0
Inside pos [] = pos ≡ 0
Inside pos (item ∷ rest) = pos < length item

-- What `write` is documented to do: it takes at most the bytes that it is given, from their front.
abbrev pub WriteLaw : {W : Type 0} → (W → Bytes) → Bytes → W → Sent × W → Type 0
WriteLaw out bs w (wrote n, w') = (n ≤ length bs) × (out w' ≡ out w ++ take n bs)
WriteLaw out bs w (_, w') = out w' ≡ out w

Inside-rest : (items : List Bytes) → Sendable items → Inside 0 items
Inside-rest [] s = refl
Inside-rest (x ∷ rest) s = s.0

drop-all : (n : ℕ) (xs : Bytes) → n ≡ length xs → drop n xs ≡ []
drop-all zero [] h = refl
drop-all zero (x ∷ xs) h = absurd (omega arith)
drop-all (suc n) [] h = refl
drop-all (suc n) (x ∷ xs) h = drop-all n xs (omega arith)

-- Bytes moved from the pending ones to those sent.
moved : (o X rest : Bytes) (n : ℕ) → (o ++ take n X) ++ (drop n X ++ rest) ≡ o ++ (X ++ rest)
moved o X rest n =
    append_assoc o (take n X) (drop n X ++ rest)
    ∙ ap (λ y. o ++ y)
        (sym (append_assoc (take n X) (drop n X) rest) ∙ ap (λ y. y ++ rest) (take-append-drop n X))

module _ {W : Type 0} (write : Bytes → W → Sent × W) (out : W → Bytes)
    (law : (bs : Bytes) (w : W) → WriteLaw out bs w (write bs w)) where
  abbrev pub total : WriteBuf → W → Bytes
  total b w = out w ++ pending_from b.item_pos b.queue

  abbrev ItemOk : List Bytes → Bytes → Option (Stop × WriteBuf × W) → Type 0
  ItemOk rest t none = ⊥
  ItemOk rest t (some (sent, b, w)) = (total b w ≡ t) × (b.queue ≡ rest) × (b.item_pos ≡ 0)
  ItemOk rest t (some (s, b, w)) = (total b w ≡ t) × Sendable b.queue × Inside b.item_pos b.queue

  pending_rest : (rest : List Bytes) → pending_from 0 rest ≡ bytes_of rest
  pending_rest [] = refl
  pending_rest (x ∷ rest) = refl

  stays :
      (b : WriteBuf) (w w' : W) (item : Bytes) (rest : List Bytes)
      → b.queue ≡ item ∷ rest
      → Sendable (item ∷ rest)
      → b.item_pos < length item
      → out w' ≡ out w
      → (total b w' ≡ total b w) × Sendable b.queue × Inside b.item_pos b.queue
  stays b w w' item rest q s inside kept = (
    ap (λ y. y ++ pending_from b.item_pos b.queue) kept,
    subst (λ x. Sendable x) (sym q) s,
    subst (λ x. Inside b.item_pos x) (sym q) inside,
  )

  wrote_some-ItemOk :
      (item : Bytes) (rest : List Bytes) (b : WriteBuf) (w : W) (fuel : ℕ)
      → b.queue ≡ item ∷ rest
      → Sendable (item ∷ rest)
      → b.item_pos < length item
      → length item - b.item_pos < suc fuel
      → (r : Sent × W) → WriteLaw out (drop b.item_pos item) w r
      → ((d : WriteBuf) (w' : W)
          → d.queue ≡ item ∷ rest
          → d.item_pos < length item
          → length item - d.item_pos < fuel
          → ItemOk rest (total d w') (write_item write fuel item rest d w'))
      → ItemOk rest
          (total b w)
          (wrote_some write item rest b r (λ d w'. write_item write fuel item rest d w'))
  unfolding wrote_some
  wrote_some-ItemOk item rest b w fuel q s inside enough (again, w') l rec =
      stays b w w' item rest q s inside l
  wrote_some-ItemOk item rest b w fuel q s inside enough (failed, w') l rec =
      stays b w w' item rest q s inside l
  wrote_some-ItemOk item rest b w fuel q s inside enough (wrote zero, w') l rec =
      stays b w w' item rest q s inside (l.1 ∙ append-nil (out w))
  wrote_some-ItemOk item rest b w fuel q s inside enough (wrote (suc n), w') (few, more) rec =
      let left = length-drop b.item_pos item in
      let X = drop b.item_pos item in
      let all : (out w ++ take (suc n) X) ++ (drop (suc n) X ++ bytes_of rest) ≡ total b w =
        rw q (moved (out w) X (bytes_of rest) (suc n)) in
      let split = drop-drop b.item_pos (suc n) item in
      elim (Bool-cases ((b.item_pos + suc n) == length item)) [
        | inl done ↦
            let end : drop (suc n) X ≡ [] = drop-all (suc n) X (ground arith) in
            rw (done, more, pending_rest rest)
              (
                subst (λ y. (out w ++ take (suc n) X) ++ (y ++ bytes_of rest) ≡ total b w) end all,
                refl,
                refl,
              )
        | inr unfinished ↦
            let d : WriteBuf = record b { item_pos = b.item_pos + suc n } in
            let left_over : pending_from (b.item_pos + suc n) b.queue
                ≡ drop (suc n) X ++ bytes_of rest =
              rw q (ap (λ y. y ++ bytes_of rest) split) in
            let same : total d w' ≡ total b w = rw (more, left_over) all in
            let bound : b.item_pos + suc n < length item = ground arith in
            rw unfinished (
              subst (λ t. ItemOk rest t (write_item write fuel item rest d w')) same
                (rec d w' q bound (omega arith)))
      ]

  write_item-ItemOk :
      (fuel : ℕ) (item : Bytes) (rest : List Bytes) (b : WriteBuf) (w : W)
      → b.queue ≡ item ∷ rest
      → Sendable (item ∷ rest)
      → b.item_pos < length item
      → length item - b.item_pos < fuel
      → ItemOk rest (total b w) (write_item write fuel item rest b w)
  unfolding write_item
  write_item-ItemOk zero item rest b w q s inside enough = absurd (omega arith)
  write_item-ItemOk (suc fuel) item rest b w q s inside enough =
      let room = s.1 in
      let more : ltb 0 ((length item + 2 ^ 64 - b.item_pos) % 2 ^ 64) ≡ true = ground arith in
      rw more (
        wrote_some-ItemOk item rest b w fuel q s inside enough (write (drop b.item_pos item) w)
          (law (drop b.item_pos item) w)
          (λ d w' q' inside' less. write_item-ItemOk fuel item rest d w' q' s inside' less))

  -- How a call ends: all is sent, or the rest is as it was.
  abbrev pub Replied : Bytes → Option (WriteStatus × WriteBuf × W) → Type 0
  Replied t none = ⊥
  Replied t (some (write_all, b, w)) = (out w ≡ t) × (b.queue ≡ [])
  Replied t (some (s, b, w)) = (total b w ≡ t) × Sendable b.queue × Inside b.item_pos b.queue

  after_item-Replied :
      (rest : List Bytes) (t : Bytes) (o : Option (Stop × WriteBuf × W))
      (next : WriteBuf → W → Option (WriteStatus × WriteBuf × W))
      → ItemOk rest t o
      → ((b : WriteBuf) (w : W)
          → b.queue ≡ rest
          → b.item_pos ≡ 0
          → total b w ≡ t
          → Replied t (next b w))
      → Replied t (after_item write o next)
  unfolding after_item
  after_item-Replied rest t none next h rec = absurd h
  after_item-Replied rest t (some (sent, b, w)) next (same, q, at) rec = rec b w q at same
  after_item-Replied rest t (some (blocked, b, w)) next h rec = h
  after_item-Replied rest t (some (broken, b, w)) next h rec = h
  after_item-Replied rest t (some (stalled, b, w)) next h rec = h

  reply_turn-Replied :
      (items : List Bytes) (b : WriteBuf) (w : W)
      → b.queue ≡ items
      → Sendable items
      → Inside b.item_pos items
      → (next : WriteBuf → W → Option (WriteStatus × WriteBuf × W))
      → ((d : WriteBuf) (w' : W)
          → Sendable d.queue
          → Inside d.item_pos d.queue
          → suc (length d.queue) ≡ length items
          → Replied (total d w') (next d w'))
      → Replied (total b w) (reply_turn write items b w next)
  unfolding reply_turn
  reply_turn-Replied [] b w q s inside next rec =
      (sym (append-nil (out w)) ∙ ap (λ x. out w ++ pending_from b.item_pos x) (sym q), q)
  reply_turn-Replied (item ∷ rest) b w q s inside next rec =
      after_item-Replied rest (total b w) (write_item write (suc (length item)) item rest b w) next
        (write_item-ItemOk (suc (length item)) item rest b w q s inside (omega arith))
        (λ d w' q' at same.
          subst (λ t. Replied t (next d w')) same
            (rec d w' (subst (λ x. Sendable x) (sym q') s.2)
              (subst (λ x. Inside x d.queue) (sym at)
                (subst (λ x. Inside 0 x) (sym q') (Inside-rest rest s.2)))
              (ap (λ x. suc (length x)) q')))

  reply_loop-Replied :
      (fuel : ℕ) (b : WriteBuf) (w : W)
      → Sendable b.queue
      → Inside b.item_pos b.queue
      → length b.queue < fuel
      → Replied (total b w) (reply_loop write fuel b w)
  unfolding reply_loop
  reply_loop-Replied zero b w s inside enough = absurd (omega arith)
  reply_loop-Replied (suc fuel) b w s inside enough =
      reply_turn-Replied b.queue b w refl s inside (λ d w'. reply_loop write fuel d w')
        (λ d w' s' inside' fewer. reply_loop-Replied fuel d w' s' inside' (omega arith))

  -- If `write` takes at most the bytes that it is given, from their front, each waiting item is not
  -- empty and shorter than 2^63 bytes, and the send position is inside the first one, then a call
  -- returns, whatever part of its bytes `write` takes each time: with write_all, exactly the waiting
  -- bytes have been sent, in order, and none waits; else the bytes sent and those that still wait
  -- are the waiting bytes in order, and the queue can be sent on from where it stopped.
  pub send_reply-Replied :
      (b : WriteBuf) (w : W)
      → Sendable b.queue
      → Inside b.item_pos b.queue
      → Replied (total b w) (send_reply write b w)
  unfolding send_reply
  send_reply-Replied b w s inside =
      reply_loop-Replied (suc (length b.queue)) b w s inside (omega arith)

module _ {W : Type 0} (write : Bytes → W → Sent × W) where
  -- With an empty item at the head of the queue, the loop never ends: no number of turns is enough.
  pub reply_loop-empty_item :
      (fuel : ℕ) (rest : List Bytes) (n : ℤ) (w : W)
      → reply_loop write fuel (record { queue = [] ∷ rest; item_pos = 0; is_reply = n }) w ≡ none
  unfolding reply_loop reply_turn after_item write_item
  reply_loop-empty_item zero rest n w = refl
  reply_loop-empty_item (suc fuel) rest n w = reply_loop-empty_item fuel rest n w
