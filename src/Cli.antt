-- ===== src/Cli.antt =====
-- pink/src/pink_cli.cc: `SendRaw` and `RecvRaw`. The calls of the system are parameters.
pub mod Sending
pub mod Receiving
pub mod Tests
use pink.Base.{
  ℕ, zero, suc, ◌+◌, ◌-◌, ◌%◌, ◌^◌, [], ◌∷◌, ◌++◌, Option, none, some, ◌==◌, if◌then◌else◌, length,
  take, drop,
}
use pink.Pb.Frame.{Bytes}
use pink.Pb.Client.{Raw, raw, raw_error}

pub data Errno : Type 0 where
  eintr eagain other_errno : Errno

-- The results of `read`: -1 with its errno, or the bytes, none of them for 0.
pub data ReadResult : Type 0 where
  read_failed : Errno → ReadResult
  read_bytes : Bytes → ReadResult

-- The results of `send` and `write`: -1 with its errno, or a count.
pub data WriteResult : Type 0 where
  write_failed : Errno → WriteResult
  written : ℕ → WriteResult

-- The kinds of `Status` that the two return, and the end of the model's fuel.
pub data Status : Type 0 where
  ok timeout io_error end_file out_of_fuel : Status

-- What a round of `SendRaw` does with the result of `send`; `again` is the next round.
unfoldable pub sent_some :
    {W : Type 0} → (ℕ → ℕ → W → Status × W) → ℕ → ℕ → WriteResult × W → Status × W
sent_some again nleft p (write_failed eintr, w) = again nleft p w
sent_some again nleft p (write_failed eagain, w) = (timeout, w)
sent_some again nleft p (write_failed other_errno, w) = (io_error, w)
sent_some again nleft p (written n, w) =
    if n == 0 then (io_error, w) else again (nleft - n) ((p + n) % 2 ^ 32) w

module _ {W : Type 0} (send : Bytes → W → WriteResult × W) where
  -- The loop, with `nleft` and `pos`.
  unfoldable pub send_loop : ℕ → Bytes → ℕ → ℕ → W → Status × W
  send_loop zero buf nleft p w = (out_of_fuel, w)
  send_loop (suc fuel) buf nleft p w =
      if nleft == 0
      then (ok, w)
      else sent_some (send_loop fuel buf) nleft p (send (take nleft (drop p buf)) w)

  -- `SendRaw`. Each round sends a byte or is interrupted; `interrupts` bounds the interruptions.
  unfoldable pub send_raw : (W → ℕ) → Bytes → W → Status × W
  send_raw interrupts buf w = send_loop (length buf + interrupts w + 1) buf (length buf) 0 w

-- What a round of `RecvRaw` does with the result of `read`; `buf` is what has been read.
unfoldable pub received_some :
    {W : Type 0}
    → (ℕ → Bytes → W → Status × Bytes × W)
    → ℕ
    → Bytes
    → ReadResult × W
    → Status × Bytes × W
received_some again nleft buf (read_failed eintr, w) = again nleft buf w
received_some again nleft buf (read_failed eagain, w) = (timeout, buf, w)
received_some again nleft buf (read_failed other_errno, w) = (io_error, buf, w)
received_some again nleft buf (read_bytes [], w) = (end_file, buf, w)
received_some again nleft buf (read_bytes (x ∷ xs), w) =
    again (nleft - suc (length xs)) (buf ++ x ∷ xs) w

module _ {W : Type 0} (read : ℕ → W → ReadResult × W) where
  unfoldable pub recv_loop : ℕ → ℕ → Bytes → W → Status × Bytes × W
  recv_loop zero nleft buf w = (out_of_fuel, buf, w)
  recv_loop (suc fuel) nleft buf w =
      if nleft == 0 then (ok, buf, w) else received_some (recv_loop fuel) nleft buf (read nleft w)

  unfoldable pub recv_raw : (W → ℕ) → ℕ → W → Status × Bytes × W
  recv_raw interrupts count w = recv_loop (count + interrupts w + 1) count [] w

-- What `Recv` of a client sees of it: the status when it is not ok, or the bytes.
unfoldable pub raw_of : {W : Type 0} → Status × Bytes × W → Raw Status × W
raw_of (ok, bs, w) = (raw bs, w)
raw_of (timeout, bs, w) = (raw_error timeout, w)
raw_of (io_error, bs, w) = (raw_error io_error, w)
raw_of (end_file, bs, w) = (raw_error end_file, w)
raw_of (out_of_fuel, bs, w) = (raw_error out_of_fuel, w)
