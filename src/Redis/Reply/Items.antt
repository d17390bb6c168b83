-- ===== src/Redis/Reply/Items.antt =====
-- pink/src/redis_cli.cc: one item of a reply that is whole in the buffer.
use pink.Base.{
  ℕ, zero, suc, ◌+◌, ◌-◌, ◌*◌, ◌/◌, ◌%◌, ◌^◌, ◌≤◌, ◌<◌, ◌≡◌, refl, sym, ap, ◌∙◌, ◌≢◌, inl, inr,
  false, [], ◌∷◌, ◌++◌, some, ltb, length, take, drop, append_assoc, length-append, append-nil,
  arith, Bool-cases, drop-drop,
}
use pink.Redis.Chars.{Bytes, Argv}
use pink.Redis.Serialize.{digits, to_string, crlf, bulk}
use pink.Redis.Stream.Lines.{body, take-body, drop-body, length-body}
use pink.Redis.Reply.{
  RedisCli, ReplyStatus, redis_ok, seek_newline, read_digits, signed_value, read_long_long,
  read_int, line_of, read_line, line_item, process_line_item, bulk_body, bulk_item,
  process_bulk_item, multi_bulk_header, process_multi_bulk_item, reply_of_type,
  get_reply_from_reader, one_less,
}

-- The items that a server sends: "-...", "+...", ":...", "$N\r\n..." and "$-1\r\n".
pub data LineKind : Type 0 where
  failure status integer : LineKind

pub data Item : Type 0 where
  line : LineKind → Bytes → Item
  text : Bytes → Item
  nil : Item

abbrev pub kind_byte : LineKind → ℕ
kind_byte failure = b'-'
kind_byte status = b'+'
kind_byte integer = b':'

abbrev pub render : Item → Bytes
render (line k bs) = kind_byte k ∷ (bs ++ crlf)
render (text bs) = bulk bs
render nil = b'$' ∷ b'-' ∷ b'1' ∷ crlf

-- What an item adds to `argv_`: nothing for the nil.
abbrev pub values : Item → Argv
values (line k bs) = bs ∷ []
values (text bs) = bs ∷ []
values nil = []

-- No byte is '\r'.
abbrev pub NoCr : Bytes → Type 0
NoCr [] = Unit {0}
NoCr (c ∷ cs) = (c ≢ 13) × NoCr cs

-- A line has no '\r', and the length of a text is an int that stays one with its "\r\n".
abbrev pub Sound : Item → Type 0
Sound (line k bs) = NoCr bs
Sound (text bs) = length bs < 2 ^ 31 - 2
Sound nil = Unit

abbrev pub state : Argv → Bytes → ℕ → RedisCli
state argv buf elements = record { argv = argv; rbuf = buf; elements = elements }

abbrev pub given : Argv → Bytes → ℕ → ReplyStatus × RedisCli
given a buf e = (redis_ok, state a buf e)

-- The line that `s` begins with.
pub seek_newline-NoCr :
    (s rest : Bytes) → NoCr s → seek_newline (s ++ (crlf ++ rest)) ≡ some (length s)
unfolding seek_newline
seek_newline-NoCr [] rest h = refl
seek_newline-NoCr (a ∷ []) rest h = ground (arith, h.0)
seek_newline-NoCr (a ∷ b ∷ s) rest h = ground (arith, h.0, seek_newline-NoCr (b ∷ s) rest h.1)

drop_line : (s rest : Bytes) → drop (length s + 2) (s ++ (crlf ++ rest)) ≡ rest
drop_line s rest = drop-body s rest

NoCr-append : (xs ys : Bytes) → NoCr xs → NoCr ys → NoCr (xs ++ ys)
NoCr-append [] ys hx hy = hy
NoCr-append (x ∷ xs) ys hx hy = (hx.0, NoCr-append xs ys hx.1 hy)

-- Decimals.
pub digits-NoCr : (fuel n : ℕ) → NoCr (digits fuel n)
unfolding digits
digits-NoCr zero n = omega arith
digits-NoCr (suc fuel) n = elim (Bool-cases (ltb n 10)) [
  | inl small ↦ rw small (omega arith)
  | inr large ↦
      rw large (NoCr-append (digits fuel (n / 10)) _ (digits-NoCr fuel (n / 10)) (omega arith))
]

abbrev pub StartsDigit : Bytes → Type 0
StartsDigit [] = ⊥
StartsDigit (c ∷ s) = (48 ≤ c) × (c < 58)

pub digits-StartsDigit : (fuel n : ℕ) (ys : Bytes) → n ≤ fuel → StartsDigit (digits fuel n ++ ys)
unfolding digits
digits-StartsDigit zero n ys h = (omega arith, omega arith)
digits-StartsDigit (suc fuel) n ys h = elim (Bool-cases (ltb n 10)) [
  | inl small ↦ rw small (omega arith, ground arith)
  | inr large ↦
      rw (large, append_assoc (digits fuel (n / 10)) ((48 + n % 10) ∷ []) ys)
        (digits-StartsDigit fuel (n / 10) ((48 + n % 10) ∷ ys) (ground arith))
]

read_digits-digit :
    (v d : ℕ) (ys : Bytes)
    → d < 10
    → v * 10 + d < 2 ^ 64
    → read_digits v ((48 + d) ∷ ys) ≡ read_digits (v * 10 + d) ys
unfolding read_digits
read_digits-digit v d ys small bounded =
    let same : (v * 10 + (48 + d - 48)) % 2 ^ 64 ≡ v * 10 + d = omega arith in
    ground (arith, ap (λ k. read_digits k ys) same)

read_digits-digits :
    (fuel n : ℕ) (ys : Bytes)
    → n ≤ fuel
    → n < 2 ^ 64
    → read_digits 0 (digits fuel n ++ ys) ≡ read_digits n ys
unfolding digits
read_digits-digits zero n ys h bounded =
    read_digits-digit 0 n ys (omega arith) (omega arith) ∙ ap (λ k. read_digits k ys) (omega arith)
read_digits-digits (suc fuel) n ys h bounded = elim (Bool-cases (ltb n 10)) [
  | inl small ↦ rw small (
      read_digits-digit 0 n ys (ground arith) (omega arith)
      ∙ ap (λ k. read_digits k ys) (omega arith))
  | inr large ↦
      let step : n / 10 * 10 + n % 10 ≡ n = omega arith in
      rw (large, append_assoc (digits fuel (n / 10)) ((48 + n % 10) ∷ []) ys)
        (read_digits-digits fuel (n / 10) ((48 + n % 10) ∷ ys) (ground arith) (omega arith)
          ∙ read_digits-digit (n / 10) (n % 10) ys (omega arith) (omega arith)
          ∙ ap (λ k. read_digits k ys) step)
]

read_long_long-digit :
    (s : Bytes) → StartsDigit s → read_long_long s ≡ signed_value false (read_digits 0 s)
unfolding read_long_long
read_long_long-digit [] h = absurd h
read_long_long-digit (c ∷ s) h = ground (arith, h.0)

pub read_int-to_string :
    (n : ℕ) (rest : Bytes) → n < 2 ^ 32 → read_int (to_string n ++ (crlf ++ rest)) ≡ n
unfolding read_int signed_value read_digits
read_int-to_string n rest h =
    let value =
      read_long_long-digit (to_string n ++ (crlf ++ rest))
        (digits-StartsDigit n n (crlf ++ rest) (omega arith))
      ∙ ap (signed_value false)
          (read_digits-digits n n (crlf ++ rest) (omega arith) (omega arith)) in
    ap (λ v. v % 2 ^ 32) value ∙ omega arith

read_line-NoCr : (s rest : Bytes) → NoCr s → read_line (s ++ (crlf ++ rest)) ≡ some (s, rest)
unfolding read_line line_of
read_line-NoCr s rest h =
    ap (line_of (s ++ (crlf ++ rest))) (seek_newline-NoCr s rest h)
    ∙ (ap (λ x. some (x, drop (length s + 2) (s ++ (crlf ++ rest)))) (take-body s rest)
        ∙ ap (λ x. some (s, x)) (drop_line s rest))

process_line_item-line :
    (a : Argv) (s rest : Bytes) (e : ℕ)
    → NoCr s
    → process_line_item (state a (s ++ (crlf ++ rest)) e)
      ≡ (redis_ok, state (a ++ s ∷ []) rest (one_less e))
unfolding process_line_item line_item
process_line_item-line a s rest e h =
    ap (line_item (state a (s ++ (crlf ++ rest)) e)) (read_line-NoCr s rest h)

pub process_multi_bulk_item-header :
    (a : Argv) (n : ℕ) (rest : Bytes) (e : ℕ)
    → n < 2 ^ 32
    → process_multi_bulk_item (state a (to_string n ++ (crlf ++ rest)) e)
      ≡ (redis_ok, state a rest n)
unfolding process_multi_bulk_item multi_bulk_header
process_multi_bulk_item-header a n rest e h =
    ap (multi_bulk_header (state a (to_string n ++ (crlf ++ rest)) e))
      (read_line-NoCr (to_string n) rest (digits-NoCr n n))
    ∙ (ap (λ k. given a rest k) (read_int-to_string n rest h))

bulk_body-text :
    (a : Argv) (buf : Bytes) (e bytelen : ℕ) (bs rest : Bytes)
    → drop bytelen buf ≡ body bs rest
    → length bs < 2 ^ 31 - 2
    → bytelen + length bs + 2 ≤ length buf
    → bulk_body (state a buf e) bytelen (length bs)
      ≡ (redis_ok, state (a ++ bs ∷ []) rest (one_less e))
unfolding bulk_body
bulk_body-text a buf e bytelen bs rest behind small room =
    let taken : take (length bs) (drop bytelen buf) ≡ bs =
      ap (take (length bs)) behind ∙ take-body bs rest in
    let left : drop (bytelen + length bs + 2) buf ≡ rest =
      ap (λ k. drop k buf) (omega arith)
      ∙ drop-drop bytelen (length bs + 2) buf
      ∙ ap (drop (length bs + 2)) behind
      ∙ drop-body bs rest in
    ground (arith, taken, left)

process_bulk_item-text :
    (a : Argv) (bs rest : Bytes) (e : ℕ)
    → length bs < 2 ^ 31 - 2
    → process_bulk_item (state a (to_string (length bs) ++ (crlf ++ body bs rest)) e)
      ≡ given (a ++ bs ∷ []) rest (one_less e)
unfolding process_bulk_item bulk_item
process_bulk_item-text a bs rest e small =
    let n = length bs in
    let head = to_string n in
    let buf = head ++ (crlf ++ body bs rest) in
    let behind : drop (length head + 2) buf ≡ body bs rest = drop_line head (body bs rest) in
    ap (bulk_item (state a buf e)) (seek_newline-NoCr head (body bs rest) (digits-NoCr n n))
    ∙ (ap (bulk_body (state a buf e) (length head + 2))
          (read_int-to_string n (body bs rest) (omega arith))
        ∙ bulk_body-text a buf e (length head + 2) bs rest behind small
            (omega (arith, length-append head (crlf ++ body bs rest), length-body bs rest)))

render-text :
    (bs rest : Bytes)
    → render (text bs) ++ rest ≡ b'$' ∷ (to_string (length bs) ++ (crlf ++ body bs rest))
render-text bs rest =
    ap (λ x. b'$' ∷ x)
      (append_assoc (to_string (length bs)) (crlf ++ (bs ++ crlf)) rest
        ∙ ap (λ x. to_string (length bs) ++ (crlf ++ x)) (append_assoc bs crlf rest))

process_bulk_item-nil :
    (a : Argv) (rest : Bytes) (e : ℕ)
    → process_bulk_item (state a (b'-' ∷ b'1' ∷ (crlf ++ rest)) e) ≡ given a rest (one_less e)
unfolding process_bulk_item bulk_item bulk_body seek_newline read_int read_long_long read_digits
    signed_value
process_bulk_item-nil a rest e = refl

-- An item that is whole in the buffer is read, and the rest stays.
pub get_reply_from_reader-item :
    (a : Argv) (i : Item) (rest : Bytes) (e : ℕ)
    → Sound i
    → get_reply_from_reader (state a (render i ++ rest) e) ≡ given (a ++ values i) rest (one_less e)
unfolding get_reply_from_reader reply_of_type
get_reply_from_reader-item a (line failure bs) rest e h =
    ap (λ x. process_line_item (state a x e)) (append_assoc bs crlf rest)
    ∙ process_line_item-line a bs rest e h
get_reply_from_reader-item a (line status bs) rest e h =
    ap (λ x. process_line_item (state a x e)) (append_assoc bs crlf rest)
    ∙ process_line_item-line a bs rest e h
get_reply_from_reader-item a (line integer bs) rest e h =
    ap (λ x. process_line_item (state a x e)) (append_assoc bs crlf rest)
    ∙ process_line_item-line a bs rest e h
get_reply_from_reader-item a (text bs) rest e h =
    ap (λ x. get_reply_from_reader (state a x e)) (render-text bs rest)
    ∙ process_bulk_item-text a bs rest e h
get_reply_from_reader-item a nil rest e h =
    process_bulk_item-nil a rest e ∙ ap (λ x. given x rest (one_less e)) (sym (append-nil a))
