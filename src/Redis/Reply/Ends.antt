-- ===== src/Redis/Reply/Ends.antt =====
-- pink/src/redis_cli.cc: the end of `Recv`, and the room of its buffer.
use pink.Base.{ℕ, suc, ◌+◌, ◌≤◌, ◌<◌, [], ◌∷◌, Option, none, some, length}
use pink.Redis.Chars.{Bytes}
use pink.Redis.Conn.{redis_iobuf_len}
use pink.Cli.{eintr, ReadResult, read_failed, read_bytes}
use pink.Redis.Reply.{RedisCli, ReplyStatus, overrun, no_fuel}

abbrev pub NotFuel : ReplyStatus → Type 0
NotFuel no_fuel = ⊥
NotFuel s = Unit

-- At most so many bytes are left.
abbrev Keeps : ℕ → ReplyStatus × RedisCli → Type 0
Keeps n (s, d) = NotFuel s × (length d.rbuf ≤ n)

abbrev Shorter : ℕ → Option (Bytes × Bytes) → Type 0
Shorter n none = Unit
Shorter n (some (l, rest)) = length rest ≤ n

-- What `read` is documented to do: it gives at most the bytes that are asked for, and `budget` counts down
-- the bytes and the interruptions.
abbrev pub CountLaw : {W : Type 0} → (W → ℕ) → ℕ → W → ReadResult × W → Type 0
CountLaw budget n w (read_failed eintr, v) = budget v < budget w
CountLaw budget n w (read_failed _, v) = Unit
CountLaw budget n w (read_bytes [], v) = Unit
CountLaw budget n w (read_bytes (x ∷ xs), v) =
    (suc (length xs) ≤ n) × (suc (length xs) + budget v ≤ budget w)

-- The status is one of the code's, and the buffer is not past its end; nothing is said of `overrun`, where the
-- model stops and the code goes on with bytes that have not come.
abbrev pub Bounded : {W : Type 0} → ReplyStatus × RedisCli × W → Type 0
Bounded (overrun, d, v) = Unit
Bounded (s, d, v) = NotFuel s × (length d.rbuf ≤ redis_iobuf_len)

abbrev Filled : {W : Type 0} → (W → ℕ) → ℕ → Option ReplyStatus × RedisCli × W → Type 0
Filled budget total (some s, d, v) = NotFuel s × (length d.rbuf ≤ redis_iobuf_len)
Filled budget total (none, d, v) =
    (0 < length d.rbuf) × (length d.rbuf ≤ redis_iobuf_len) × (length d.rbuf + budget v ≤ total)

module _ {W : Type 0} (budget : W → ℕ) where
  abbrev Next : ℕ → (ReplyStatus → RedisCli → W → ReplyStatus × RedisCli × W) → Type 0
  Next fuel again =
      (s : ReplyStatus) (c : RedisCli) (w : W)
      → NotFuel s
      → length c.rbuf ≤ redis_iobuf_len
      → length c.rbuf + budget w < fuel
      → Bounded (again s c w)
