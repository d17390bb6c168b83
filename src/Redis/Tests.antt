-- ===== src/Redis/Tests.antt =====
-- Runs of the Redis protocol at concrete inputs.
use Prim.Native.Char.{code}
use Prim.Native.String.{String}
use pink.Base.{
  ℕ, ◌+◌, ◌-◌, ◌*◌, ◌≡◌, refl, List, [], ◌∷◌, Option, none, some, ltb, ◌||◌, if◌then◌else◌, pos,
  take,
}
use pink.Redis.Chars.{Bytes, Argv}
use pink.Redis.Args.{split2args}
use pink.Redis.State.{Parser, fresh, ok, Run, done}
use pink.Redis.Parser.{
  process_input_buffer, StringToLong, find_next_separators, process_request_buffer, request_loop,
  request_round, process_inline_buffer, process_multibulk_buffer, multibulk_header, bulk_header,
  take_bulk, bulk_round, bulk_loop, after_command, complete_all,
}
use pink.Redis.Stream.Phase.{Log, recording}
use pink.Redis.Serialize.{digits, redis_format_command_argv}

abbrev pub codes : String → Bytes
codes String.[] = []
codes (String.◌∷◌ c s) = code c ∷ codes s

words :
    split2args (codes " set \"a\\x01b\" 'c d' e\r\n") []
    ≡ some (codes "set" ∷ (97 ∷ 1 ∷ 98 ∷ []) ∷ codes "c d" ∷ codes "e" ∷ [])
unfolding split2args
words = refl

-- Unsigned decimals.
unfoldable pub decimal_from : ℕ → Bytes → Option ℕ
decimal_from n [] = some n
decimal_from n (c ∷ cs) =
    if ltb c b'0' || ltb b'9' c then none else decimal_from (n * 10 + (c - b'0')) cs

unfoldable pub decimal : StringToLong
decimal s k = elim (decimal_from 0 (take k s)) [ none ↦ none | some n ↦ some (pos n) ]

abbrev pub ready : Parser Log
ready = record (fresh recording (record { dealt = []; completed = [] })) { status_code = done }

abbrev outcome : Run (Parser Log) → Option (List Argv)
outcome (ok p) = some (p.data_.dealt)
outcome _ = none

set_command :
    redis_format_command_argv (codes "SET" ∷ codes "key" ∷ codes "v" ∷ [])
    ≡ codes "*3\r\n$3\r\nSET\r\n$3\r\nkey\r\n$1\r\nv\r\n"
unfolding redis_format_command_argv digits
set_command = refl

-- A call of the parser, run on decimals.
run : Parser Log → Bytes → Run (Parser Log)
unfolding process_input_buffer process_request_buffer request_loop request_round
    process_inline_buffer process_multibulk_buffer multibulk_header bulk_header take_bulk bulk_round
    bulk_loop after_command complete_all decimal decimal_from find_next_separators
run = process_input_buffer decimal

one :
    outcome (run ready (codes "*3\r\n$3\r\nSET\r\n$3\r\nkey\r\n$1\r\nv\r\n"))
    ≡ some ((codes "SET" ∷ codes "key" ∷ codes "v" ∷ []) ∷ [])
unfolding run
one = refl
