-- ===== src/Redis/Request.antt =====
-- pink/src/redis_cli.cc: `RedisCli::Send`, with `SendRaw` of pink/src/pink_cli.cc.
use pink.Base.{
  ℕ, zero, suc, ◌+◌, ◌-◌, ◌%◌, ◌^◌, ◌<◌, ◌≡◌, refl, ap, ◌∙◌, ◌==◌, if◌then◌else◌, ◌≤◌, Bool, true,
  false, length-take, length-drop, length, take, drop, arith,
}
use pink.Redis.Chars.{Bytes}
use pink.Cli.{
  Errno, eintr, eagain, other_errno, WriteResult, write_failed, written, Status, ok, timeout,
  io_error, out_of_fuel, sent_some, send_loop, send_raw,
}

-- What a round does when `write` returns -1 or 0, by errno.
unfoldable pub not_written : {W : Type 0} → (W → Status × W) → Errno → W → Status × W
not_written again eintr w = again w
not_written again eagain w = (timeout, w)
not_written again other_errno w = (io_error, w)

-- `errno` is what an earlier call has left, for the 0 of `write`.
module _ {W : Type 0} (errno : W → Errno) where
  unfoldable pub sent_request : (ℕ → ℕ → W → Status × W) → ℕ → ℕ → WriteResult × W → Status × W
  sent_request again nleft p (write_failed e, w) = not_written (again nleft p) e w
  sent_request again nleft p (written zero, w) = not_written (again nleft p) (errno w) w
  sent_request again nleft p (written (suc n), w) =
      again ((nleft + 2 ^ 64 - suc n) % 2 ^ 64) ((p + suc n) % 2 ^ 32) w

  module _ (write : Bytes → W → WriteResult × W) where
    unfoldable pub request_loop : ℕ → Bytes → ℕ → ℕ → W → Status × W
    request_loop zero buf nleft p w = (out_of_fuel, w)
    request_loop (suc fuel) buf nleft p w =
        if nleft == 0
        then (ok, w)
        else sent_request (request_loop fuel buf) nleft p (write (take nleft (drop p buf)) w)

    -- `Send`.
    unfoldable pub send_request : (W → ℕ) → Bytes → W → Status × W
    send_request interrupts buf w =
        request_loop (length buf + interrupts w + 1) buf (length buf) 0 w

-- `write`, given some bytes, does not return 0, and counts at most these bytes.
abbrev pub Writes : {W : Type 0} → Bytes → WriteResult × W → Type 0
Writes bs (write_failed e, v) = Unit
Writes bs (written n, v) = (0 < n) × (n ≤ length bs)

module _ {W : Type 0} (errno : W → Errno) (write : Bytes → W → WriteResult × W) (buf : Bytes) where
  -- The two loops agree on a position in the buffer and the bytes behind it.
  abbrev Agree : (ℕ → ℕ → W → Status × W) → (ℕ → ℕ → W → Status × W) → Type 0
  Agree again again' =
      (nleft p : ℕ) (w : W) → p + nleft ≡ length buf → again nleft p w ≡ again' nleft p w

  sent_request-sent_some :
      (again again' : ℕ → ℕ → W → Status × W) (nleft p : ℕ) (bs : Bytes) (r : WriteResult × W)
      → Agree again again'
      → p + nleft ≡ length buf
      → length buf < 2 ^ 31
      → length bs ≡ nleft
      → Writes bs r
      → sent_request errno again nleft p r ≡ sent_some again' nleft p r
  unfolding sent_request sent_some not_written
  sent_request-sent_some again again' nleft p bs (write_failed eintr, w) same at small all law =
      same nleft p w at
  sent_request-sent_some again again' nleft p bs (write_failed eagain, w) same at small all law =
      refl
  sent_request-sent_some again again' nleft p bs (write_failed other_errno, w) same at small all
        law =
      refl
  sent_request-sent_some again again' nleft p bs (written zero, w) same at small all law =
      absurd (omega (arith, law.0))
  sent_request-sent_some again again' nleft p bs (written (suc n), w) same at small all law =
      let most = law.1 in
      let left : (nleft + 2 ^ 64 - suc n) % 2 ^ 64 ≡ nleft - suc n = omega arith in
      let moved : (p + suc n) % 2 ^ 32 ≡ p + suc n = omega arith in
      ap (λ k. again k ((p + suc n) % 2 ^ 32) w) left
      ∙ same (nleft - suc n) ((p + suc n) % 2 ^ 32) w (omega arith)
      ∙ ground arith

  module _ (law : (bs : Bytes) (w : W) → 0 < length bs → Writes bs (write bs w)) where
    request_loop-send_loop :
        (fuel : ℕ)
        → length buf < 2 ^ 31
        → Agree (request_loop errno write fuel buf) (send_loop write fuel buf)
    unfolding request_loop send_loop
    request_loop-send_loop zero small nleft p w at = refl
    request_loop-send_loop (suc fuel) small nleft p w at =
        go (nleft == 0) refl (request_loop-send_loop fuel small)
      where
        go :
            (b : Bool)
            → (nleft == 0) ≡ b
            → Agree (request_loop errno write fuel buf) (send_loop write fuel buf)
            → (if b
                then (ok, w)
                else sent_request errno
                    (request_loop errno write fuel buf)
                    nleft
                    p
                    (write (take nleft (drop p buf)) w))
              ≡ (if b
                  then (ok, w)
                  else sent_some
                      (send_loop write fuel buf)
                      nleft
                      p
                      (write (take nleft (drop p buf)) w))
        go true e same = refl
        go false e same =
            let bs = take nleft (drop p buf) in
            let all : length bs ≡ nleft =
              omega (arith, length-take nleft (drop p buf), length-drop p buf, at) in
            sent_request-sent_some (request_loop errno write fuel buf) (send_loop write fuel buf)
              nleft p bs (write bs w) same at small all (law bs w (ground (arith, all)))

    -- If `write`, given some bytes, never returns 0 and counts at most these bytes, and the buffer has fewer
    -- than 2^31 bytes, then `Send` of the redis client does what `SendRaw` does: it ends in the same state
    -- with the same status, whatever `errno` an earlier call has left.
    pub send_request-send_raw :
        (interrupts : W → ℕ) (w : W)
        → length buf < 2 ^ 31
        → send_request errno write interrupts buf w ≡ send_raw write interrupts buf w
    unfolding send_request send_raw
    send_request-send_raw interrupts w small =
        request_loop-send_loop (length buf + interrupts w + 1) small (length buf) 0 w (omega arith)
