-- ===== src/Redis/Chars.antt =====
-- Characters: the tests of <ctype.h> (C locale) that pink/src/redis_parser.cc calls, the
-- hexadecimal digits of its `HexDigitToInt32`, and the escapes of `split2args`.
use pink.Base.{ℕ, ◌+◌, ◌-◌, Bool, ◌&&◌, ◌||◌, List, leb, ◌==◌, if◌then◌else◌}

-- The bytes of a buffer.
abbrev pub Bytes : Type 0
Bytes = List ℕ

-- RedisCmdArgsType; its `cmd_idx` is never read in the code modelled here.
abbrev pub Argv : Type 0
Argv = List Bytes

abbrev within : ℕ → ℕ → ℕ → Bool
within lo hi c = leb lo c && leb c hi

abbrev pub isspace : ℕ → Bool
isspace c = c == b' ' || within 9 13 c

abbrev pub isxdigit : ℕ → Bool
isxdigit c = within b'0' b'9' c || within b'A' b'F' c || within b'a' b'f' c

unfoldable pub tolower : ℕ → ℕ
tolower c = if within b'A' b'Z' c then c + 32 else c

unfoldable pub hex_digit_to_int32 : ℕ → ℕ
hex_digit_to_int32 ch =
    if leb ch b'9' && leb b'0' ch
    then ch - b'0'
    else if leb ch b'F' && leb b'A' ch
    then ch - b'A'
    else if leb ch b'f' && leb b'a' ch
    then ch - b'a'
    else 0

-- The `switch` on the byte behind a backslash.
unfoldable pub escaped : ℕ → ℕ
escaped c =
    if c == b'n'
    then 10
    else if c == b'r'
    then 13
    else if c == b't'
    then 9
    else if c == b'b'
    then 8
    else if c == b'a'
    then 7
    else c
