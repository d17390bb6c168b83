-- ===== src/Http/Request/Parsed.antt =====
-- `ParseHeader` of pink/src/http_conn.cc on the head of a request.
use pink.Base.{
  ℕ, suc, ◌+◌, ◌-◌, ◌<◌, ◌≡◌, refl, sym, ap, ◌∙◌, ◌≢◌, [], ◌∷◌, ◌++◌, Option, some, length,
  length-append, append_assoc, leb, if◌then◌else◌, Bool, false, ◌==◌, arith,
}
use mathlib.Core.Option
use pink.PubSub.Tables.{Bytes}
use pink.Http.Fields.{Fields}
use pink.Http.Response.{max_message}
use pink.Http.Head.{header_param_key, new_head, find_separator, is_separator, parse_lines}
use pink.Http.Head.Chars.{crlf, Value, Word, Key, head_of}
use pink.Http.Head.Lines.{
  request_line, field_line, field_lines, render_head, AllFields, stored, length-field_lines,
  parse_lines-head,
}
use pink.Http.Request.{
  HttpRequest, Header, bad_header, header_behind, parse_header, parse_header_at, with_head,
}

-- No '\r' and no 0.
abbrev Plain : Bytes → Type 0
Plain [] = Unit {0}
Plain (c ∷ s) = (c ≢ 13) × (c ≢ 0) × Plain s

Plain-append : (xs ys : Bytes) → Plain xs → Plain ys → Plain (xs ++ ys)
Plain-append [] ys hx hy = hy
Plain-append (x ∷ xs) ys hx hy = (hx.0, hx.1, Plain-append xs ys hx.2 hy)

Value-Plain : (s : Bytes) → Value s → Plain s
Value-Plain [] h = tt
Value-Plain (c ∷ s) h = (h.0, h.2, Value-Plain s h.3)

Word-Plain : (s : Bytes) → Word s → Plain s
Word-Plain [] h = tt
Word-Plain (c ∷ s) h = (h.1, h.3, Word-Plain s h.4)

Key-Plain : (s : Bytes) → Key s → Plain s
Key-Plain [] h = tt
Key-Plain (c ∷ s) h = (h.2, h.4, Key-Plain s h.5)

-- The separator is behind a text without '\r'.
is_separator-Plain : (c : ℕ) (s : Bytes) → c ≢ 13 → is_separator (c ∷ s) ≡ false
unfolding is_separator
is_separator-Plain c (b ∷ d ∷ e ∷ s) h = ground arith
is_separator-Plain c (b ∷ d ∷ []) h = refl
is_separator-Plain c (b ∷ []) h = refl
is_separator-Plain c [] h = refl

find_separator-Plain :
    (s r : Bytes) (n : ℕ)
    → Plain s
    → find_separator r ≡ some n
    → find_separator (s ++ r) ≡ some (length s + n)
unfolding find_separator
find_separator-Plain [] r n h e = e ∙ ap some (omega arith)
find_separator-Plain (c ∷ s) r n h e =
    let not_here = is_separator-Plain c (s ++ r) h.0 in
    let later = find_separator-Plain s r n h.2 e in
    let more : suc (length s + n) ≡ suc (length s) + n = omega arith in
    rw (not_here, later) (ground (arith, h.1, more))

find_separator-crlf :
    (s r : Bytes) (n : ℕ)
    → Plain s
    → 0 < length s
    → find_separator (s ++ r) ≡ some n
    → find_separator (13 ∷ 10 ∷ (s ++ r)) ≡ some (suc (suc n))
unfolding find_separator is_separator
find_separator-crlf [] r n h some_of_it e = absurd (omega arith)
find_separator-crlf (c ∷ s) r n h some_of_it e =
    rw (not_first c (s ++ r) h.0, is_separator-Plain 10 (c ∷ (s ++ r)) (omega arith))
      (ap (λ o. Option.map suc (Option.map suc o)) e)
  where
    not_first : (c : ℕ) (x : Bytes) → c ≢ 13 → is_separator (13 ∷ 10 ∷ c ∷ x) ≡ false
    not_first c [] h = refl
    not_first c (d ∷ x) h = ground arith

abbrev field_text : Bytes → Bytes → Bytes
field_text k w = k ++ 58 ∷ 32 ∷ w

field_text-Plain : (k w : Bytes) → Key k → Value w → Plain (field_text k w)
field_text-Plain k w hk hw =
    Plain-append k (58 ∷ 32 ∷ w) (Key-Plain k hk)
      (omega arith, omega arith, (omega arith, omega arith, Value-Plain w hw))

length-field_text : (k w : Bytes) → length (field_text k w) ≡ length k + length w + 2
length-field_text k w = omega (arith, length-append k (58 ∷ 32 ∷ w))

field_line-text : (k w r : Bytes) → field_line (k, w) ++ r ≡ field_text k w ++ (crlf ++ r)
field_line-text k w r =
    append_assoc k (58 ∷ 32 ∷ (w ++ crlf)) r
    ∙ ap (λ x. k ++ 58 ∷ 32 ∷ x) (append_assoc w crlf r)
    ∙ sym (append_assoc k (58 ∷ 32 ∷ w) (crlf ++ r))

length-field_line : (k w : Bytes) → length (field_line (k, w)) ≡ length k + length w + 4
length-field_line k w = omega (arith, length-append k (58 ∷ 32 ∷ (w ++ crlf)), length-append w crlf)

find_separator-fields :
    (s : Bytes) (fs : Fields) (rest : Bytes)
    → Plain s
    → AllFields fs
    → find_separator (s ++ (crlf ++ (field_lines fs ++ rest)))
      ≡ some (length s + (length (field_lines fs) - 2))
unfolding AllFields field_lines find_separator is_separator
find_separator-fields s [] rest hs hf = find_separator-Plain s (crlf ++ (crlf ++ rest)) 0 hs refl
find_separator-fields s ((k, w) ∷ fs) rest hs hf =
    let text = field_text k w in
    let r = crlf ++ (field_lines fs ++ rest) in
    let plain = field_text-Plain k w hf.0 hf.1 in
    let n = length text + (length (field_lines fs) - 2) in
    let split : field_lines ((k, w) ∷ fs) ++ rest ≡ text ++ r =
      append_assoc (field_line (k, w)) (field_lines fs) rest
      ∙ field_line-text k w (field_lines fs ++ rest) in
    let size : suc (suc n) ≡ length (field_lines ((k, w) ∷ fs)) - 2 = omega (
      arith,
      length-append (field_line (k, w)) (field_lines fs),
      length-field_line k w,
      length-field_text k w,
      length-field_lines fs,
    ) in
    ap (λ x. find_separator (s ++ (crlf ++ x))) split
    ∙ find_separator-Plain s (crlf ++ (text ++ r)) (suc (suc n)) hs (
        find_separator-crlf text r n plain (omega (arith, length-field_text k w))
          (find_separator-fields text fs rest plain hf.2))
    ∙ ap (λ x. some (length s + x)) size

abbrev request_text : Bytes → Bytes → Bytes → Bytes
request_text m u v = m ++ 32 ∷ (u ++ 32 ∷ v)

request_line-text : (m u v r : Bytes) → request_line m u v ++ r ≡ request_text m u v ++ (crlf ++ r)
request_line-text m u v r =
    append_assoc m (32 ∷ (u ++ 32 ∷ (v ++ crlf))) r
    ∙ ap (λ x. m ++ 32 ∷ x)
        (append_assoc u (32 ∷ (v ++ crlf)) r
          ∙ ap (λ x. u ++ 32 ∷ x) (append_assoc v crlf r)
          ∙ sym (append_assoc u (32 ∷ v) (crlf ++ r)))
    ∙ sym (append_assoc m (32 ∷ (u ++ 32 ∷ v)) (crlf ++ r))

length-request_line :
    (m u v : Bytes) → length (request_line m u v) ≡ length (request_text m u v) + 2
length-request_line m u v = omega (
  arith,
  length-append m (32 ∷ (u ++ 32 ∷ (v ++ crlf))),
  length-append u (32 ∷ (v ++ crlf)),
  length-append v crlf,
  length-append m (32 ∷ (u ++ 32 ∷ v)),
  length-append u (32 ∷ v),
)

-- The buffer of a request that begins with this head.
abbrev pub with_rbuf : Bytes → HttpRequest → HttpRequest
with_rbuf bs r = record r { rbuf = bs; head = new_head }

-- If the buffer is not full and begins with the head of a request, "method url version", lines "key: value"
-- with a space behind the ':', and the empty line, where no part has an end of a line or a 0, the method and the url have no space, and a key has
-- neither a space nor a ':', then a `ParseHeader` that begins afresh finds the head and its length, takes
-- the method, the url and the version from it, and stores each value under its key in lower case, the last
-- one of a key that comes twice; the path, the parameters and the content length come from these.
pub parse_header-head :
    (string_to_lower : Bytes → Bytes) (stoul : Bytes → Option ℕ) (r : HttpRequest) (m u v : Bytes)
    (fs : Fields) (rest : Bytes)
    → Word m
    → Word u
    → Value v
    → AllFields fs
    → length (render_head m u v fs ++ rest) < max_message
    → parse_header string_to_lower stoul (with_rbuf (render_head m u v fs ++ rest) r)
      ≡ with_head string_to_lower stoul
          (with_rbuf (render_head m u v fs ++ rest) r)
          (length (render_head m u v fs))
          (head_of m u v (stored string_to_lower fs []) header_param_key)
unfolding parse_header parse_header_at
parse_header-head string_to_lower stoul r m u v fs rest hm hu hv hf room =
    let text = request_text m u v in
    let buf = render_head m u v fs ++ rest in
    let q = with_rbuf buf r in
    let len = length (render_head m u v fs) in
    let plain : Plain text = Plain-append m (32 ∷ (u ++ 32 ∷ v)) (Word-Plain m hm) (
      omega arith,
      omega arith,
      Plain-append u (32 ∷ v) (Word-Plain u hu) (omega arith, omega arith, Value-Plain v hv),
    ) in
    let at = length text + (length (field_lines fs) - 2) in
    let found : find_separator buf ≡ some at =
      ap find_separator (
        append_assoc (request_line m u v) (field_lines fs) rest
        ∙ request_line-text m u v (field_lines fs ++ rest))
      ∙ find_separator-fields text fs rest plain hf in
    let size : at + 4 ≡ len = omega (
      arith,
      length-append (request_line m u v) (field_lines fs),
      length-request_line m u v,
      length-field_lines fs,
    ) in
    let big : 5 < len =
      omega (arith, size, length-append m (32 ∷ (u ++ 32 ∷ v)), length-append u (32 ∷ v)) in
    let parse : ℕ → Header × HttpRequest =
      λ n. with_head string_to_lower stoul q n (parse_lines string_to_lower n buf n new_head) in
    let parsed : ℕ → Header × HttpRequest = λ n. if leb n 5 then (bad_header, q) else parse n in
    let long : parsed len ≡ parse len = ground arith in
    let not_full : (length buf == max_message) ≡ false = ground arith in
    let unless_full : Bool → Header × HttpRequest = λ b.
      if b
      then (header_behind, q)
      else parse_header_at string_to_lower stoul q (find_separator buf) in
    ap unless_full not_full
    ∙ ap (parse_header_at string_to_lower stoul q) found
    ∙ ap parsed size
    ∙ long
    ∙ ap (with_head string_to_lower stoul q len) (
        parse_lines-head string_to_lower len m u v rest fs hm hu hv hf
          (omega (arith, size, length-field_lines fs, length-append m (32 ∷ (u ++ 32 ∷ v)))))
