-- ===== src/Redis/Stream/Lines.antt =====
-- A line "*N\r\n" or "$N\r\n" in a stream that has arrived up to some point, for pink/src/redis_parser.cc.
use pink.Base.{
  ℕ, suc, ◌+◌, ◌-◌, ◌^◌, ◌%◌, ◌≤◌, ◌<◌, ◌≡◌, refl, sym, ap, ◌≢◌, ◌⊎◌, ◌∙◌, inl, inr, [], ◌∷◌, ◌++◌,
  none, some, length, length-append, drop, take, append_assoc, arith, pos,
}
use pink.Redis.Chars.{Bytes}
use pink.Redis.State.{ok}
use pink.Redis.Parser.{StringToLong, find_next_separators, get_next_num}
use pink.Redis.Serialize.{to_string, crlf}
use pink.Redis.Serialize.Decimal.{NoLf, NoLf-append, digits-NoLf, length-digits-le}

abbrev pub line : ℕ → ℕ → Bytes → Bytes
line mark n rest = mark ∷ (to_string n ++ (crlf ++ rest))

pub find_next_separators-NoLf : (xs : Bytes) → NoLf xs → find_next_separators xs ≡ none
unfolding find_next_separators
find_next_separators-NoLf [] h = refl
find_next_separators-NoLf (x ∷ xs) h = ground (arith, find_next_separators-NoLf xs h.1)

pub find_next_separators-append :
    (xs ys : Bytes) → NoLf xs → find_next_separators (xs ++ 10 ∷ ys) ≡ some (length xs)
unfolding find_next_separators
find_next_separators-append [] ys h = refl
find_next_separators-append (x ∷ xs) ys h = ground (arith, find_next_separators-append xs ys h.1)

pub drop_behind : (xs ys : Bytes) → drop (suc (length xs)) (xs ++ 10 ∷ ys) ≡ ys
drop_behind [] ys = refl
drop_behind (x ∷ xs) ys = drop_behind xs ys

-- The line without its '\n'.
abbrev stem : ℕ → ℕ → Bytes
stem mark n = mark ∷ (to_string n ++ 13 ∷ [])

stem-NoLf : (mark n : ℕ) → mark ≢ 10 → NoLf (stem mark n)
stem-NoLf mark n h = (h, NoLf-append (to_string n) (13 ∷ []) (digits-NoLf n n) (omega arith))

line-stem : (mark n : ℕ) (rest : Bytes) → line mark n rest ≡ stem mark n ++ 10 ∷ rest
line-stem mark n rest = ap (◌∷◌ mark) (sym (append_assoc (to_string n) (13 ∷ []) (10 ∷ rest)))

length-stem : (mark n : ℕ) → length (stem mark n) ≡ length (to_string n) + 2
length-stem mark n = omega (arith, length-append (to_string n) (13 ∷ []))

pub find_next_separators-line :
    (mark n : ℕ) (rest : Bytes)
    → mark ≢ 10
    → find_next_separators (line mark n rest) ≡ some (length (to_string n) + 2)
find_next_separators-line mark n rest h = rw line-stem (
    find_next_separators-append (stem mark n) rest (stem-NoLf mark n h)
    ∙ ap some (length-stem mark n))

pub drop-line :
    (mark n : ℕ) (rest : Bytes) → drop (suc (length (to_string n) + 2)) (line mark n rest) ≡ rest
drop-line mark n rest =
    rw (line-stem mark n rest, ← length-stem mark n) (drop_behind (stem mark n) rest)

-- What `string2l` is documented to do on the decimal text of a number that fits in a `long`.
abbrev pub ReadsDecimals : StringToLong → Type 0
ReadsDecimals string2l =
    (n : ℕ) (rest : Bytes)
    → n < 2 ^ 63
    → string2l (to_string n ++ rest) (length (to_string n)) ≡ some (pos n)

size_t : (k : ℕ) → k < 2 ^ 64 → (k + 2 + 2 ^ 64 - 2) % 2 ^ 64 ≡ k
size_t k h = omega arith

pub get_next_num-line :
    (string2l : StringToLong) (mark n : ℕ) (rest : Bytes)
    → ReadsDecimals string2l
    → n < 2 ^ 63
    → get_next_num string2l (line mark n rest) (length (to_string n) + 2) ≡ ok (some (pos n))
unfolding get_next_num
get_next_num-line string2l mark n rest law h =
    ground (arith, law n (crlf ++ rest) h, length-digits-le n n, size_t (length (to_string n)))

-- Either the line has arrived, or it holds no '\n' yet and more is to come.
cut :
    (x t u y : Bytes)
    → NoLf x
    → t ++ u ≡ x ++ 10 ∷ y
    → ((t' : Bytes) × (t ≡ x ++ 10 ∷ t') × (t' ++ u ≡ y)) ⊎ (NoLf t × (u ≢ []))
cut [] [] u y h e = inr (tt, λ z. cc)
cut [] (c ∷ t) u y h e = inl (t, (cc), (cc))
cut (b ∷ x) [] u y h e = inr (tt, λ z. cc)
cut (b ∷ x) (c ∷ t) u y h e = elim (cut x t u y h.1 (cc)) [
  | inl (t', e', r) ↦ inl (t', (cc), r)
  | inr (n, more) ↦ inr ((ground (arith, h.0), n), more)
]

pub cut_line :
    (mark n : ℕ) (t u y : Bytes)
    → mark ≢ 10
    → t ++ u ≡ line mark n y
    → ((t' : Bytes) × (t ≡ line mark n t') × (t' ++ u ≡ y)) ⊎ (NoLf t × (u ≢ []))
cut_line mark n t u y h e =
    elim (cut (stem mark n) t u y (stem-NoLf mark n h) (e ∙ line-stem mark n y)) [
      | inl (t', e', r) ↦ inl (t', e' ∙ sym (line-stem mark n t'), r)
      | inr some_of_it ↦ inr some_of_it
    ]

-- The bytes of a bulk with their "\r\n".
abbrev pub body : Bytes → Bytes → Bytes
body a rest = a ++ (crlf ++ rest)

pub cut_body :
    (a t u y : Bytes)
    → length a + 2 ≤ length t
    → t ++ u ≡ body a y
    → (t' : Bytes) × (t ≡ body a t') × (t' ++ u ≡ y)
cut_body [] [] u y h e = absurd (omega arith)
cut_body [] (r ∷ []) u y h e = absurd (omega arith)
cut_body [] (r ∷ l ∷ t) u y h e = (t, cc, cc)
cut_body (b ∷ a) [] u y h e = absurd (omega arith)
cut_body (b ∷ a) (c ∷ t) u y h e =
    let (t', e', r) = cut_body a t u y (omega arith) (cc) in (t', cc, r)

pub take-body : (a rest : Bytes) → take (length a) (body a rest) ≡ a
take-body [] rest = refl
take-body (b ∷ a) rest = ap (◌∷◌ b) (take-body a rest)

pub drop-body : (a rest : Bytes) → drop (length a + 2) (body a rest) ≡ rest
drop-body [] rest = refl
drop-body (b ∷ a) rest = ground (arith, drop-body a rest)

pub length-body : (a rest : Bytes) → length (body a rest) ≡ length a + 2 + length rest
length-body a rest = omega (arith, length-append a (crlf ++ rest))

-- A stream shorter than a bulk is not all of it.
pub more_to_come : (a t u y : Bytes) → length t < length a + 2 → t ++ u ≡ body a y → u ≢ []
more_to_come a t [] y h e z =
    absurd (omega (arith, ap length e, length-append t [], length-body a y))
more_to_come a t (c ∷ u) y h e z = cc
