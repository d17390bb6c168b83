-- ===== src/Redis/Serialize/Decimal.antt =====
-- Decimal texts in pink/src/redis_cli.cc, and what `intlen` counts.
use pink.Base.{
  ℕ, zero, suc, ◌+◌, ◌/◌, ◌%◌, ◌^◌, ◌≤◌, ◌<◌, ◌≡◌, ◌∙◌, true, ◌≢◌, [], ◌∷◌, ◌++◌, ltb, length,
  length-append, arith, Bool-cases, inl, inr,
}
use pink.Redis.Chars.{Bytes, Argv}
use pink.Redis.Serialize.{
  digits, to_string, intlen_loop, intlen, bulklen, crlf, bulk, bulks, totlen_loop, totlen,
  redis_format_command_argv,
}

-- No byte is '\n'.
abbrev pub NoLf : Bytes → Type 0
NoLf [] = Unit {0}
NoLf (c ∷ cs) = (c ≢ 10) × NoLf cs

pub NoLf-append : (xs ys : Bytes) → NoLf xs → NoLf ys → NoLf (xs ++ ys)
NoLf-append [] ys hx hy = hy
NoLf-append (x ∷ xs) ys hx hy = (hx.0, NoLf-append xs ys hx.1 hy)

pub digits-NoLf : (fuel n : ℕ) → NoLf (digits fuel n)
unfolding digits
digits-NoLf zero n = omega arith
digits-NoLf (suc fuel) n = elim (Bool-cases (ltb n 10)) [
  | inl small ↦ rw small (omega arith)
  | inr large ↦
      rw large (NoLf-append (digits fuel (n / 10)) _ (digits-NoLf fuel (n / 10)) (omega arith))
]

pub length-digits-le : (fuel n : ℕ) → length (digits fuel n) ≤ suc fuel
unfolding digits
length-digits-le zero n = omega arith
length-digits-le (suc fuel) n = ground (
  arith,
  length-append (digits fuel (n / 10)) ((b'0' + n % 10) ∷ []),
  length-digits-le fuel (n / 10),
)

intlen_loop-add : (fuel i len : ℕ) → intlen_loop fuel i (len + 1) ≡ intlen_loop fuel i len + 1
unfolding intlen_loop
intlen_loop-add zero i len = omega arith
intlen_loop-add (suc fuel) i len = ground (arith, intlen_loop-add fuel (i / 10) (len + 1))

length-digits : (fuel n len : ℕ) → n ≤ fuel → length (digits fuel n) + len ≡ intlen_loop fuel n len
unfolding digits intlen_loop
length-digits zero n len h = omega arith
length-digits (suc fuel) n len h = ground (
  arith,
  length-append (digits fuel (n / 10)) ((b'0' + n % 10) ∷ []),
  length-digits fuel (n / 10) (len + 1),
)

pub length-to_string : (n : ℕ) → n < 2 ^ 31 → length (to_string n) ≡ intlen (n % 2 ^ 32)
unfolding intlen
length-to_string n small =
    let same : n % 2 ^ 32 ≡ n = omega arith in
    let not_negative : ltb n (2 ^ 31) ≡ true = ground arith in
    rw (same, not_negative) (omega (arith, length-digits n n 0))

length-bulk : (arg : Bytes) → length (bulk arg) < 2 ^ 31 → length (bulk arg) ≡ bulklen (length arg)
length-bulk arg small =
    let size : length (bulk arg) ≡ 1 + length (to_string (length arg)) + 2 + length arg + 2 =
      omega (
        arith,
        length-append (to_string (length arg)) (crlf ++ (arg ++ crlf)),
        length-append arg crlf,
      ) in
    let digits_of = length-to_string (length arg) (omega arith) in omega arith

totlen_loop-bulks :
    (total : ℕ) (args : Argv)
    → total + length (bulks args) < 2 ^ 31
    → totlen_loop total args ≡ total + length (bulks args)
unfolding totlen_loop bulks
totlen_loop-bulks total [] small = omega arith
totlen_loop-bulks total (arg ∷ args) small =
    let both = length-append (bulk arg) (bulks args) in
    let one = length-bulk arg (omega arith) in
    let added : (total + bulklen (length arg)) % 2 ^ 32 ≡ total + length (bulk arg) = omega arith in
    rw added (omega (arith, both, totlen_loop-bulks (total + length (bulk arg)) args (omega arith)))

-- A command that is shorter than 2^31 bytes is as long as the int `totlen` that is reserved for it, so that
-- no number on the way wraps around.
pub length-redis_format_command_argv :
    (argv : Argv)
    → length (redis_format_command_argv argv) < 2 ^ 31
    → length argv < 2 ^ 31
    → totlen argv ≡ length (redis_format_command_argv argv)
unfolding redis_format_command_argv totlen
length-redis_format_command_argv argv small few =
    let size : length (redis_format_command_argv argv)
        ≡ 1 + length (to_string (length argv)) + 2 + length (bulks argv) =
      omega (arith, length-append (to_string (length argv)) (crlf ++ bulks argv)) in
    let digits_of = length-to_string (length argv) few in
    totlen_loop-bulks (1 + intlen (length argv % 2 ^ 32) + 2) argv (omega arith) ∙ omega arith
