-- ===== src/Cli/Sending.antt =====
-- pink/src/pink_cli.cc: what `SendRaw` has sent.
use pink.Base.{
  ℕ, zero, suc, ◌+◌, ◌-◌, ◌%◌, ◌^◌, ◌≤◌, ◌<◌, ◌≡◌, sym, ap, ◌∙◌, refl, [], ◌∷◌, ◌++◌, ◌==◌, length,
  take, drop, arith, append_assoc, append-nil, length-drop, length-take, if-elim,
}
use pink.Pb.Frame.{Bytes}
use pink.Cli.{
  eintr, eagain, other_errno, WriteResult, write_failed, written, Status, ok, out_of_fuel,
  sent_some, send_loop, send_raw,
}

-- What `send` is documented to do: it takes at most the bytes that it is given, from their front, and is
-- interrupted only so many times.
abbrev pub SendLaw : {W : Type 0} → (W → Bytes) → (W → ℕ) → Bytes → W → WriteResult × W → Type 0
SendLaw out interrupts bs w (write_failed eintr, v) =
    (out v ≡ out w) × (interrupts v < interrupts w)
SendLaw out interrupts bs w (write_failed _, v) = out v ≡ out w
SendLaw out interrupts bs w (written n, v) =
    (n ≤ length bs) × (out v ≡ out w ++ take n bs) × (interrupts v ≤ interrupts w)

-- All of it is sent with ok, and less with another status.
abbrev pub Sends : Status → ℕ → ℕ → Type 0
Sends ok k count = k ≡ count
Sends out_of_fuel k count = ⊥
Sends _ k count = k < count

abbrev pub SentFront : {W : Type 0} → (W → Bytes) → Bytes → Bytes → Status × W → Type 0
SentFront out before buf (s, v) =
    (k : ℕ) × (k ≤ length buf) × (out v ≡ before ++ take k buf) × Sends s k (length buf)

take_nil : (n : ℕ) → take {A = ℕ} n [] ≡ []
take_nil zero = refl
take_nil (suc n) = refl

take_some : (m n : ℕ) (xs : Bytes) → take m xs ++ take n (drop m xs) ≡ take (m + n) xs
take_some zero n xs = ap (λ k. take k xs) (omega arith)
take_some (suc m) n [] = take_nil n ∙ sym (take_nil (suc m + n))
take_some (suc m) n (x ∷ xs) =
    ap (λ ys. x ∷ ys) (take_some m n xs) ∙ sym (ap (λ k. take k (x ∷ xs)) (the_suc m n))
  where
    the_suc : (m n : ℕ) → suc m + n ≡ suc (m + n)
    the_suc m n = omega arith

take-take : (m n : ℕ) (xs : Bytes) → n ≤ m → take n (take m xs) ≡ take n xs
take-take m zero xs h = refl
take-take zero (suc n) xs h = absurd (omega arith)
take-take (suc m) (suc n) [] h = refl
take-take (suc m) (suc n) (x ∷ xs) h = ap (λ ys. x ∷ ys) (take-take m n xs (omega arith))

module _ {W : Type 0} (out : W → Bytes) (interrupts : W → ℕ) (before buf : Bytes) where
  abbrev Next : ℕ → (ℕ → ℕ → W → Status × W) → Type 0
  Next fuel again =
      (nleft p : ℕ) (w : W)
      → p + nleft ≡ length buf
      → out w ≡ before ++ take p buf
      → nleft + interrupts w < fuel
      → SentFront out before buf (again nleft p w)

  sent_some-SentFront :
      {fuel : ℕ} (again : ℕ → ℕ → W → Status × W) (nleft p : ℕ) (w : W) (r : WriteResult × W)
      → Next fuel again
      → length buf < 2 ^ 31
      → 0 < nleft
      → p + nleft ≡ length buf
      → out w ≡ before ++ take p buf
      → nleft + interrupts w < suc fuel
      → SendLaw out interrupts (take nleft (drop p buf)) w r
      → SentFront out before buf (sent_some again nleft p r)
  unfolding sent_some
  sent_some-SentFront again nleft p w (write_failed eintr, v) next small more e front enough law =
      next nleft p v e (law.0 ∙ front) (omega (arith, law.1, enough))
  sent_some-SentFront again nleft p w (write_failed eagain, v) next small more e front enough law =
      (p, omega arith, law ∙ front, omega arith)
  sent_some-SentFront again nleft p w (write_failed other_errno, v) next small more e front enough
        law =
      (p, omega arith, law ∙ front, omega arith)
  sent_some-SentFront again nleft p w (written n, v) next small more e front enough
        (most, now, fewer) =
      let inside : n ≤ nleft =
        omega (arith, most, length-take nleft (drop p buf), length-drop p buf, e) in
      let whole : (p + n) % 2 ^ 32 ≡ p + n = omega (arith, inside, e, small) in
      let sent : out v ≡ before ++ take (p + n) buf =
        now
        ∙ ap (λ y. y ++ take n (take nleft (drop p buf))) front
        ∙ append_assoc before (take p buf) (take n (take nleft (drop p buf)))
        ∙ ap (λ y. before ++ (take p buf ++ y)) (take-take nleft n (drop p buf) inside)
        ∙ ap (λ y. before ++ y) (take_some p n buf) in
      if-elim (SentFront out before buf) (n == 0)
        (λ nothing. (p + n, omega (arith, inside, e), sent, ground arith))
        (λ some.
          next (nleft - n) ((p + n) % 2 ^ 32) v (omega (arith, whole, inside, e))
            (sent ∙ ap (λ k. before ++ take k buf) (sym whole))
            (ground (arith, inside, fewer, enough)))

  module _ (send : Bytes → W → WriteResult × W)
      (law : (bs : Bytes) (w : W) → SendLaw out interrupts bs w (send bs w)) where
    send_loop-SentFront : (fuel : ℕ) → length buf < 2 ^ 31 → Next fuel (send_loop send fuel buf)
    unfolding send_loop
    send_loop-SentFront zero small nleft p w e front enough = absurd (omega arith)
    send_loop-SentFront (suc fuel) small nleft p w e front enough =
        if-elim (SentFront out before buf) (nleft == 0)
          (λ done. (p, omega arith, front, ground arith))
          (λ more.
            sent_some-SentFront (send_loop send fuel buf) nleft p w
              (send (take nleft (drop p buf)) w) (send_loop-SentFront fuel small) small
              (ground arith) e front enough (law (take nleft (drop p buf)) w))

-- If `send` takes at most the bytes that it is given, from their front, and is interrupted at most
-- `interrupts` times, and the buffer has fewer than 2^31 bytes, then `SendRaw` ends and has sent the
-- bytes of a front part of the buffer, each once and in order: all of it with ok, and less than all of it
-- with any other status.
pub send_raw_lem :
    {W : Type 0} (send : Bytes → W → WriteResult × W) (out : W → Bytes) (interrupts : W → ℕ)
    (buf : Bytes) (w : W)
    → ((bs : Bytes) (w : W) → SendLaw out interrupts bs w (send bs w))
    → length buf < 2 ^ 31
    → SentFront out (out w) buf (send_raw send interrupts buf w)
unfolding send_raw
send_raw_lem send out interrupts buf w law small =
    send_loop-SentFront out interrupts (out w) buf send law (length buf + interrupts w + 1) small
      (length buf) 0 w (omega arith) (sym (append-nil (out w))) (omega arith)
