-- ===== src/Redis/Examples.antt =====
-- The theorems on the Redis protocol at concrete inputs.
use pink.Base.{
  ℕ, zero, suc, ◌+◌, ◌-◌, ◌*◌, ◌/◌, ◌%◌, ◌≤◌, ◌<◌, ◌≡◌, ◌≢◌, refl, ap, ◌∙◌, inl, inr, List, [], ◌∷◌,
  ◌++◌, Option, none, some, ltb, if◌then◌else◌, ℤ, pos, negsuc, length, take, Bool-cases, arith,
  map, if-elim, subst, get_or, drop, ◌==◌, ◌||◌,
}
use mathlib.Core.List.{flatten}
use pink.Redis.Chars.{Bytes, Argv, hex_digit_to_int32}
use pink.Redis.State.{Parser, ok, length_error, out_of_fuel, done, parser_ok}
use pink.Redis.Args.Words.{AllLines, IsPlain, IsWord}
use pink.Redis.Parser.{
  process_input_buffer, process_multibulk_buffer, bulk_loop, bulk_round, bulk_header, take_bulk,
  get_next_num, process_inline_buffer, find_next_separators, lower_name,
}
use pink.Redis.Parser.Total.{process_input_buffer-ne-out_of_fuel}
use pink.Redis.Parser.Inline.{process_inline_buffer-spell_lines}
use pink.Redis.Serialize.{digits, to_string, totlen, redis_format_command_argv}
use pink.Redis.Serialize.Decimal.{length-redis_format_command_argv}
use pink.Redis.Stream.Lines.{ReadsDecimals}
use pink.Redis.Stream.Phase.{Log, wire}
use pink.Redis.Stream.Pipeline.{AllFit}
use pink.Redis.Stream.Chunks.{feed, initial, idle, feed-wire}
use pink.Redis.Tests.{codes, decimal, decimal_from, ready}

take-length : (xs ys : Bytes) → take (length xs) (xs ++ ys) ≡ xs
take-length [] ys = refl
take-length (x ∷ xs) ys = ap (λ z. x ∷ z) (take-length xs ys)

decimal_from-append :
    (xs : Bytes) (m v d : ℕ)
    → decimal_from m xs ≡ some v
    → d < 10
    → decimal_from m (xs ++ (b'0' + d) ∷ []) ≡ some (v * 10 + d)
unfolding decimal_from
decimal_from-append [] m v d e small = let same : m ≡ v = cc in ground (arith, same)
decimal_from-append (x ∷ xs) m v d e small = elim (Bool-cases (ltb x b'0' || ltb b'9' x)) [
  | inl other ↦ absurd (ground (arith, other, e))
  | inr digit ↦ rw digit (
      decimal_from-append xs (m * 10 + (x - b'0')) v d
        (subst (λ z. (if z then none else decimal_from (m * 10 + (x - b'0')) xs) ≡ some v) digit e)
        small)
]

digit : (n : ℕ) → n < 10 → decimal_from 0 ((b'0' + n) ∷ []) ≡ some n
unfolding decimal_from
digit n h = ground arith

decimal_from-digits : (fuel n : ℕ) → n ≤ fuel → decimal_from 0 (digits fuel n) ≡ some n
unfolding digits
decimal_from-digits zero n h = digit n (omega arith)
decimal_from-digits (suc fuel) n h =
    if-elim (λ z. decimal_from 0 z ≡ some n) (ltb n 10) (λ small. digit n (ground arith))
      (λ large.
        decimal_from-append (digits fuel (n / 10)) 0 (n / 10) (n % 10)
          (decimal_from-digits fuel (n / 10) (ground arith)) (omega arith)
        ∙ ap some (omega arith))

-- What a text is read as.
abbrev signed : Option ℕ → Option ℤ
signed none = none
signed (some n) = some (pos n)

decimal-signed : (s : Bytes) (k : ℕ) → decimal s k ≡ signed (decimal_from 0 (take k s))
unfolding decimal
decimal-signed s k = refl

decimal-ReadsDecimals : ReadsDecimals decimal
decimal-ReadsDecimals n rest h =
    decimal-signed (to_string n ++ rest) (length (to_string n))
    ∙ ap (λ z. signed (decimal_from 0 z)) (take-length (to_string n) rest)
    ∙ ap signed (decimal_from-digits n n (omega arith))

-- Two commands, in two pieces that are cut inside a length.
abbrev two_commands : List Argv
two_commands = (codes "SET" ∷ codes "k" ∷ codes "v" ∷ []) ∷ (codes "PING" ∷ []) ∷ []

abbrev first_piece : Bytes
first_piece = codes "*3\r\n$"

abbrev second_piece : Bytes
second_piece = codes "3\r\nSET\r\n$1\r\nk\r\n$1\r\nv\r\n*1\r\n$4\r\nPING\r\n"

two_commands-AllFit : AllFit two_commands
two_commands-AllFit = (
  record {
    ne_nil = λ e. cc;
    count = omega arith;
    words = (omega arith, (omega arith, (omega arith, tt)));
  },
  (record { ne_nil = λ e. cc; count = omega arith; words = (omega arith, tt) }, tt),
)

two_commands-wire : flatten (first_piece ∷ second_piece ∷ []) ≡ wire two_commands
unfolding flatten redis_format_command_argv digits
two_commands-wire = refl

feed-wire_example :
    (log : Log) × (feed decimal initial (first_piece ∷ second_piece ∷ []) ≡ ok (idle log))
    × (log.dealt ≡ two_commands)
    × (flatten log.completed ≡ map lower_name two_commands)
feed-wire_example =
    feed-wire decimal two_commands first_piece (second_piece ∷ []) decimal-ReadsDecimals
      two_commands-AllFit two_commands-wire

process_input_buffer-ne-out_of_fuel_example :
    process_input_buffer decimal ready (codes "*1\r\n$4\r\nPI") ≢ out_of_fuel
process_input_buffer-ne-out_of_fuel_example =
    process_input_buffer-ne-out_of_fuel decimal ready (codes "*1\r\n$4\r\nPI")

length-redis_format_command_argv_example :
    totlen (codes "GET" ∷ codes "key" ∷ [])
    ≡ length (redis_format_command_argv (codes "GET" ∷ codes "key" ∷ []))
unfolding redis_format_command_argv digits
length-redis_format_command_argv_example =
    length-redis_format_command_argv (codes "GET" ∷ codes "key" ∷ []) (omega arith) (omega arith)

-- A reader of decimals with a sign.
abbrev negated : Option ℤ → Option ℤ
negated (some (pos (suc n))) = some (negsuc n)
negated o = o

abbrev signed_decimal : Bytes → ℕ → Option ℤ
signed_decimal s k =
    if get_or s 0 0 == b'-' then negated (decimal (drop 1 s) (k - 1)) else decimal s k

-- Behind "*1\r\n".
abbrev null_bulk : Parser Log
null_bulk = record ready { multibulk_len = pos 1; input = codes "$-1\r\nx" }

-- The null bulk makes the constructor of the string throw.
null_bulk_throws : process_multibulk_buffer signed_decimal null_bulk ≡ length_error
unfolding process_multibulk_buffer bulk_loop bulk_round bulk_header take_bulk get_next_num
    find_next_separators decimal decimal_from
null_bulk_throws = refl

-- Two lines of words.
abbrev two_lines : List Argv
two_lines = (codes "get" ∷ codes "a" ∷ []) ∷ (codes "ping" ∷ []) ∷ []

letter : (c : ℕ) → 97 ≤ c → IsPlain c
letter c h = (ground arith, omega arith, omega arith, omega arith)

get-IsWord : IsWord (codes "get")
get-IsWord = (
  (λ e. cc),
  (letter b'g' (omega arith), (letter b'e' (omega arith), (letter b't' (omega arith), tt))),
)

key_a-IsWord : IsWord (codes "a")
key_a-IsWord = ((λ e. cc), (letter b'a' (omega arith), tt))

ping-IsWord : IsWord (codes "ping")
ping-IsWord = (
  (λ e. cc),
  (
    letter b'p' (omega arith),
    (letter b'i' (omega arith), (letter b'n' (omega arith), (letter b'g' (omega arith), tt))),
  ),
)

two_lines-AllLines : AllLines two_lines
two_lines-AllLines = ((get-IsWord, (key_a-IsWord, tt)), ((ping-IsWord, tt), tt))

process_inline_buffer-spell_lines_example :
    process_inline_buffer (record ready { input = codes "get a\r\nping\r\n" }) ≡ record ready {
      argv = codes "get" ∷ codes "a" ∷ codes "ping" ∷ [];
      input = codes "ping\r\n";
      error_code = parser_ok;
      status_code = done;
    }
process_inline_buffer-spell_lines_example =
    process_inline_buffer-spell_lines (record ready { input = codes "get a\r\nping\r\n" })
      (codes "get" ∷ codes "a" ∷ []) ((codes "ping" ∷ []) ∷ []) two_lines-AllLines refl

-- The digit 'c' is twelve.
letter_c : hex_digit_to_int32 b'c' ≡ 2
unfolding hex_digit_to_int32
letter_c = refl
