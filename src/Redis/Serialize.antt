-- ===== src/Redis/Serialize.antt =====
-- The commands that pink/src/redis_cli.cc writes: `intlen`, `bulklen` and `redisFormatCommandArgv`.
pub mod Decimal
use pink.Base.{
  ℕ, zero, suc, ◌+◌, ◌-◌, ◌^◌, ◌/◌, ◌%◌, List, [], ◌∷◌, ◌++◌, ltb, ◌==◌, if◌then◌else◌, length,
}
use pink.Redis.Chars.{Bytes, Argv}

-- `std::to_string`: the digits of a number, with the number as fuel.
unfoldable pub digits : ℕ → ℕ → Bytes
digits zero n = (b'0' + n) ∷ []
digits (suc fuel) n =
    let front = digits fuel (n / 10) in
    if ltb n 10 then (b'0' + n) ∷ [] else front ++ (b'0' + n % 10) ∷ []

abbrev pub to_string : ℕ → Bytes
to_string n = digits n n

-- The `do` loop of `intlen`, on a number that is not negative, with the number as fuel; `i /= 10` of a
-- negative number goes towards 0, so that the loop has as many turns on -2^31 as on 2^31.
unfoldable pub intlen_loop : ℕ → ℕ → ℕ → ℕ
intlen_loop zero i len = len + 1
intlen_loop (suc fuel) i len =
    let again = intlen_loop fuel (i / 10) (len + 1) in if i / 10 == 0 then len + 1 else again

-- `intlen` of an int, whose unsigned value of 32 bits is i.
unfoldable pub intlen : ℕ → ℕ
intlen i =
    let size = 2 ^ 32 - i in
    let negative = intlen_loop size size 1 in if ltb i (2 ^ 31) then intlen_loop i i 0 else negative

-- A size_t, given to `intlen` as an int.
abbrev pub bulklen : ℕ → ℕ
bulklen len = (1 + intlen (len % 2 ^ 32) + 2 + len + 2) % 2 ^ 64

abbrev pub crlf : Bytes
crlf = 13 ∷ 10 ∷ []

abbrev pub bulk : Bytes → Bytes
bulk arg = b'$' ∷ (to_string (length arg) ++ (crlf ++ (arg ++ crlf)))

unfoldable pub bulks : Argv → Bytes
bulks [] = []
bulks (arg ∷ args) = bulk arg ++ bulks args

-- The loop that adds to `totlen`, the unsigned value of an int.
unfoldable pub totlen_loop : ℕ → Argv → ℕ
totlen_loop total [] = total
totlen_loop total (arg ∷ args) = totlen_loop ((total + bulklen (length arg)) % 2 ^ 32) args

-- The `totlen` that is reserved, the unsigned value of an int.
unfoldable pub totlen : Argv → ℕ
totlen argv = totlen_loop (1 + intlen (length argv % 2 ^ 32) + 2) argv

-- What `cmd` holds in the end.
unfoldable pub redis_format_command_argv : Argv → Bytes
unfolding bulks
redis_format_command_argv argv = b'*' ∷ (to_string (length argv) ++ (crlf ++ bulks argv))
