-- ===== src/Cli/Receiving.antt =====
-- pink/src/pink_cli.cc: what `RecvRaw` has read, with pink/src/pb_cli.cc.
use pink.Base.{
  ℕ, zero, suc, ◌+◌, ◌-◌, ◌≤◌, ◌<◌, ◌≡◌, sym, ap, ◌∙◌, refl, [], ◌∷◌, ◌++◌, Option, some, ◌==◌,
  length, arith, append_assoc, append-nil, length-append, if-elim, subst,
}
use pink.Pb.Frame.{Bytes}
use pink.Pb.Client.{Raw, raw, RecvLaw, received, send_buf, recv, recv-send_buf}
use pink.Cli.{
  eintr, eagain, other_errno, ReadResult, read_failed, read_bytes, Status, ok, timeout, io_error,
  end_file, out_of_fuel, received_some, recv_loop, recv_raw, raw_of,
}

-- What `read` is documented to do: it gives at most the bytes that are asked for, from the front of the
-- stream, and it is interrupted only so many times. After any other failure, and at 0, `Idle` holds.
abbrev pub ReadLaw :
    {W : Type 0} → (W → Bytes) → (W → ℕ) → (W → Type 0) → ℕ → W → ReadResult × W → Type 0
ReadLaw stream interrupts Idle n w (read_failed eintr, v) =
    (stream w ≡ stream v) × (interrupts v < interrupts w)
ReadLaw stream interrupts Idle n w (read_failed _, v) = (stream w ≡ stream v) × Idle v
ReadLaw stream interrupts Idle n w (read_bytes [], v) = (stream w ≡ stream v) × Idle v
ReadLaw stream interrupts Idle n w (read_bytes (x ∷ xs), v) =
    (suc (length xs) ≤ n) × (stream w ≡ (x ∷ xs) ++ stream v) × (interrupts v ≤ interrupts w)

-- All the bytes are there with ok, and fewer with another status.
abbrev pub Ends : Status → ℕ → ℕ → Type 0 → Type 0
Ends ok n count Idle = n ≡ count
Ends out_of_fuel n count Idle = ⊥
Ends _ n count Idle = (n < count) × Idle

abbrev pub Takes :
    {W : Type 0} → (W → Bytes) → (W → Type 0) → ℕ → Bytes → Status × Bytes × W → Type 0
Takes stream Idle count all (s, bs, v) = (all ≡ bs ++ stream v) × Ends s (length bs) count (Idle v)

module _ {W : Type 0} (stream : W → Bytes) (interrupts : W → ℕ) (Idle : W → Type 0) where
  -- The next round, from any state with as many bytes to come.
  abbrev Next : ℕ → ℕ → Bytes → (ℕ → Bytes → W → Status × Bytes × W) → Type 0
  Next fuel count all again =
      (nleft : ℕ) (buf : Bytes) (w : W)
      → length buf + nleft ≡ count
      → all ≡ buf ++ stream w
      → nleft + interrupts w < fuel
      → Takes stream Idle count all (again nleft buf w)

  received_some-Takes :
      {fuel count : ℕ} {all : Bytes} (again : ℕ → Bytes → W → Status × Bytes × W) (nleft : ℕ)
      (buf : Bytes) (w : W) (r : ReadResult × W)
      → Next fuel count all again
      → 0 < nleft
      → length buf + nleft ≡ count
      → all ≡ buf ++ stream w
      → nleft + interrupts w < suc fuel
      → ReadLaw stream interrupts Idle nleft w r
      → Takes stream Idle count all (received_some again nleft buf r)
  unfolding received_some
  received_some-Takes again nleft buf w (read_failed eintr, v) next some_left e front enough law =
      next nleft buf v e (front ∙ ap (λ x. buf ++ x) law.0) (omega (arith, law.1, enough))
  received_some-Takes again nleft buf w (read_failed eagain, v) next some_left e front enough law =
      (front ∙ ap (λ x. buf ++ x) law.0, (omega arith, law.1))
  received_some-Takes again nleft buf w (read_failed other_errno, v) next some_left e front enough
        law =
      (front ∙ ap (λ x. buf ++ x) law.0, (omega arith, law.1))
  received_some-Takes again nleft buf w (read_bytes [], v) next some_left e front enough law =
      (front ∙ ap (λ x. buf ++ x) law.0, (omega arith, law.1))
  received_some-Takes again nleft buf w (read_bytes (x ∷ xs), v) next some_left e front enough law =
      next (nleft - suc (length xs)) (buf ++ x ∷ xs) v
        (omega (arith, length-append buf (x ∷ xs), e, law.0))
        (front ∙ ap (λ y. buf ++ y) law.1 ∙ sym (append_assoc buf (x ∷ xs) (stream v)))
        (omega (arith, law.0, law.2, enough))

  module _ (read : ℕ → W → ReadResult × W)
      (law : (n : ℕ) (w : W) → 0 < n → ReadLaw stream interrupts Idle n w (read n w)) where
    recv_loop-Takes : (fuel count : ℕ) (all : Bytes) → Next fuel count all (recv_loop read fuel)
    unfolding recv_loop
    recv_loop-Takes zero count all nleft buf w e front enough = absurd (omega arith)
    recv_loop-Takes (suc fuel) count all nleft buf w e front enough =
        if-elim (Takes stream Idle count all) (nleft == 0) (λ done. (front, ground arith))
          (λ more.
            received_some-Takes (recv_loop read fuel) nleft buf w (read nleft w)
              (recv_loop-Takes fuel count all) (ground arith) e front enough
              (law nleft w (ground arith)))

    -- If `read` gives at most the bytes that it is asked for, from the front of the stream, is interrupted
    -- at most `interrupts` times, and otherwise fails or returns 0 only in a state with `Idle`, then
    -- `RecvRaw` ends, what it has read are the bytes from the front of the stream and the rest is still
    -- there; with ok it has read exactly `count` bytes, and with any other status fewer, in a state with
    -- `Idle`.
    pub recv_raw_lem :
        (count : ℕ) (w : W) → Takes stream Idle count (stream w) (recv_raw read interrupts count w)
    unfolding recv_raw
    recv_raw_lem count w =
        recv_loop-Takes (count + interrupts w + 1) count (stream w) count [] w (omega arith) refl
          (omega arith)

-- Two ways to split a list at the same place.
pub append-split :
    (xs ys us vs : Bytes) → xs ++ us ≡ ys ++ vs → length xs ≡ length ys → (xs ≡ ys) × (us ≡ vs)
append-split [] [] us vs e same = (refl, e)
append-split [] (y ∷ ys) us vs e same = absurd (omega arith)
append-split (x ∷ xs) [] us vs e same = absurd (omega arith)
append-split (x ∷ xs) (y ∷ ys) us vs e same =
    let (front, back) = append-split xs ys us vs (ap tail e) (omega arith) in
    (ap2 (λ a b. a ∷ b) (ap (head x) e) front, back)
  where
    tail : Bytes → Bytes
    tail [] = []
    tail (x ∷ xs) = xs

    head : ℕ → Bytes → ℕ
    head d [] = d
    head d (x ∷ xs) = x

    ap2 : (f : ℕ → Bytes → Bytes) {a b : ℕ} {c d : Bytes} → a ≡ b → c ≡ d → f a c ≡ f b d
    ap2 f {a} {b} {c} p q = ap (λ z. f z c) p ∙ ap (f b) q

-- Nothing is on the stream.
abbrev pub Dry : {W : Type 0} → (W → Bytes) → W → Type 0
Dry stream w = stream w ≡ []

module _ {W : Type 0} (stream : W → Bytes) where
  Gives : Bytes → Bytes → Raw Status × W → Type 0
  Gives bs rest r = (v : W) × (r ≡ (raw bs, v)) × (stream v ≡ rest)

  short :
      (got bs rest : Bytes) (v : W)
      → stream v ≡ []
      → bs ++ rest ≡ got ++ stream v
      → length got < length bs
      → ⊥
  short got bs rest v dry e fewer = omega (
    arith,
    sym (length-append bs rest) ∙ ap length (e ∙ ap (λ y. got ++ y) dry ∙ append-nil got),
    fewer,
  )

  raw_of-Gives :
      (bs rest : Bytes) (r : Status × Bytes × W)
      → Takes stream (Dry stream) (length bs) (bs ++ rest) r
      → Gives bs rest (raw_of r)
  unfolding raw_of Gives
  raw_of-Gives bs rest (ok, got, v) (e, all) =
      let (same, left) = append-split got bs (stream v) rest (sym e) all in
      (v, ap (λ y. (raw y, v)) same, left)
  raw_of-Gives bs rest (timeout, got, v) (e, fewer) = absurd (short got bs rest v fewer.1 e fewer.0)
  raw_of-Gives bs rest (io_error, got, v) (e, fewer) =
      absurd (short got bs rest v fewer.1 e fewer.0)
  raw_of-Gives bs rest (end_file, got, v) (e, fewer) =
      absurd (short got bs rest v fewer.1 e fewer.0)
  raw_of-Gives bs rest (out_of_fuel, got, v) (e, never) = absurd never

-- If `read` follows its law and, interruptions apart, fails or returns 0 only when the stream is empty,
-- `RecvRaw` gives all the bytes that are asked for, from the front of the stream, when the stream has
-- them: it is the transport that `Recv` of the protobuf client relies on.
pub recv_raw-RecvLaw :
    {W : Type 0} (stream : W → Bytes) (interrupts : W → ℕ) (read : ℕ → W → ReadResult × W)
    → ((n : ℕ) (w : W) → 0 < n → ReadLaw stream interrupts (Dry stream) n w (read n w))
    → RecvLaw stream (λ n w. raw_of (recv_raw read interrupts n w))
unfolding Gives
recv_raw-RecvLaw stream interrupts read law w bs rest e =
    raw_of-Gives stream bs rest (recv_raw read interrupts (length bs) w) (
      subst
        (λ all. Takes stream (Dry stream) (length bs) all (recv_raw read interrupts (length bs) w))
        e (recv_raw_lem stream interrupts (Dry stream) read law (length bs) w))

-- If `read` follows its law and, interruptions apart, fails or returns 0 only when the stream is empty,
-- the parser of messages reads what the serializer has written of this message, and the message with its
-- head fits the buffer of 512 MB, so that `Send` gives SendRaw a text, then `Recv` of the protobuf client
-- over `RecvRaw` and this `read` reads the message back from this text, in however many parts and
-- interruptions it arrives, and leaves the rest.
pub recv-over_socket :
    {M W : Type 0} (serialize : M → Bytes) (parse : Bytes → Option M) (stream : W → Bytes)
    (interrupts : W → ℕ) (read : ℕ → W → ReadResult × W) (w : W) (m : M) (wire rest : Bytes)
    → ((n : ℕ) (w : W) → 0 < n → ReadLaw stream interrupts (Dry stream) n w (read n w))
    → parse (serialize m) ≡ some m
    → send_buf serialize m ≡ some wire
    → stream w ≡ wire ++ rest
    → (v : W) × (recv parse (λ n w. raw_of (recv_raw read interrupts n w)) w ≡ (received m, v))
      × (stream v ≡ rest)
recv-over_socket serialize parse stream interrupts read w m wire rest law inverse sent on_stream =
    recv-send_buf serialize parse (λ n w. raw_of (recv_raw read interrupts n w)) stream w m wire
      rest (recv_raw-RecvLaw stream interrupts read law) inverse sent on_stream
