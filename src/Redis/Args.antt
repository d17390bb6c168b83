-- ===== src/Redis/Args.antt =====
-- `split2args` of pink/src/redis_parser.cc: the words of an inline command.
-- The two nested loops are one pass over the bytes: `Mode` says where in the loops the pass stands
-- (`blank` is the outer loop, the others are the inner one with the flags `inq` and `insq`), and
-- `skip` counts the bytes that the branch before has already moved `p` over. The end of the list is
-- the trailing '\0' of the buffer.
pub mod Words
use pink.Base.{
  ℕ, zero, suc, ◌+◌, ◌*◌, ◌%◌, Bool, true, false, not, ◌&&◌, ◌||◌, List, [], ◌∷◌, ◌++◌, Option,
  none, some, ◌==◌, if◌then◌else◌, get_or,
}
use pink.Redis.Chars.{Bytes, Argv, isspace, isxdigit, hex_digit_to_int32, escaped}

pub data Mode : Type 0 where
  blank bare inq insq : Mode

-- What one round of the inner loop does: `return -1`, `done = 1`, or go on with bytes appended to
-- `arg`, in a mode, `skip` bytes beyond the current one.
pub data Round : Type 0 where
  reject finish : Round
  next : Bytes → Mode → ℕ → Round

-- `*(p + i)` where `ahead` is what stands behind `*p`.
abbrev peek : Bytes → ℕ → ℕ
peek ahead i = get_or ahead i 0

-- A closing quote must be followed by a space or nothing at all.
pub close_quote : Bytes → Round
close_quote ahead =
    if not (peek ahead 0 == 0) && not (isspace (peek ahead 0)) then reject else finish

unfoldable pub in_double_quotes : ℕ → Bytes → Round
unfolding close_quote hex_digit_to_int32 escaped
in_double_quotes c ahead =
    if c == b'\\' && peek ahead 0 == b'x' && isxdigit (peek ahead 1) && isxdigit (peek ahead 2)
    then next
        (((hex_digit_to_int32 (peek ahead 1) * 16 + hex_digit_to_int32 (peek ahead 2)) % 256) ∷ [])
        inq 3
    else if c == b'\\' && not (peek ahead 0 == 0)
    then next (escaped (peek ahead 0) ∷ []) inq 1
    else if c == b'"'
    then close_quote ahead
    else if c == 0
    then reject
    else next (c ∷ []) inq 0

unfoldable pub in_single_quotes : ℕ → Bytes → Round
unfolding close_quote
in_single_quotes c ahead =
    if c == b'\\' && peek ahead 0 == b'\''
    then next (b'\'' ∷ []) insq 1
    else if c == b'\''
    then close_quote ahead
    else if c == 0
    then reject
    else next (c ∷ []) insq 0

unfoldable pub in_bare : ℕ → Round
in_bare c =
    if c == b' ' || c == b'\n' || c == b'\r' || c == b'\t' || c == 0
    then finish
    else if c == b'"'
    then next [] inq 0
    else if c == b'\''
    then next [] insq 0
    else next (c ∷ []) bare 0

-- One round at the byte `c`; a blank that is no token yet starts none.
unfoldable pub round : Mode → ℕ → Bytes → Round
unfolding in_double_quotes in_single_quotes in_bare
round blank c ahead = if isspace c then next [] blank 0 else in_bare c
round bare c ahead = in_bare c
round inq c ahead = in_double_quotes c ahead
round insq c ahead = in_single_quotes c ahead

-- At '\0'.
pub at_end : Mode → Bytes → Argv → Option Argv
at_end blank arg argv = some argv
at_end bare arg argv = some (argv ++ arg ∷ [])
at_end inq arg argv = none
at_end insq arg argv = none

unfoldable pub scan : Mode → Bytes → Argv → ℕ → Bytes → Option Argv
unfolding at_end round
scan m arg argv skip [] = at_end m arg argv
scan m arg argv (suc skip) (c ∷ cs) = scan m arg argv skip cs
scan m arg argv zero (c ∷ cs) =
    let stop = at_end m arg argv in
    let after = scan blank [] (argv ++ arg ∷ []) 0 cs in
    if c == 0 then stop else elim (round m c cs) [
      | reject ↦ none
      | finish ↦ after
      | next bs m' skip ↦ scan m' (arg ++ bs) argv skip cs
    ]

-- `none` is the result -1, with `argv` cleared; otherwise the words are appended to `argv`.
unfoldable pub split2args : Bytes → Argv → Option Argv
unfolding scan
split2args req_buf argv = scan blank [] argv 0 req_buf
