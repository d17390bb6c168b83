-- ===== src/Http/Head/Lines.antt =====
-- The lines of a request in `ParseHeader` of pink/src/http_conn.cc.
use pink.Base.{
  ℕ, zero, suc, ◌+◌, ◌-◌, ◌≤◌, ◌<◌, ◌≡◌, refl, sym, ap, ◌∙◌, [], ◌∷◌, ◌++◌, length, take, drop,
  length-append, append_assoc, append-nil, arith, ltb, if◌then◌else◌,
}
use pink.PubSub.Tables.{Bytes}
use pink.Redis.Serialize.Decimal.{NoLf, NoLf-append}
use pink.Redis.Stream.Lines.{drop_behind}
use pink.Http.Fields.{Fields, set_field}
use pink.Http.Head.{Head, header_param_key, new_head, find_lf, parse_head_line, parse_lines}
use pink.Http.Head.Chars.{
  crlf, Value, Word, Key, head_of, parse_head_line-request, parse_head_line-field,
}

-- The text of a request's head.
abbrev pub request_line : Bytes → Bytes → Bytes → Bytes
request_line m u v = m ++ 32 ∷ (u ++ 32 ∷ (v ++ crlf))

abbrev pub field_line : Bytes × Bytes → Bytes
field_line (k, w) = k ++ 58 ∷ 32 ∷ (w ++ crlf)

unfoldable pub field_lines : Fields → Bytes
field_lines [] = crlf
field_lines (f ∷ fs) = field_line f ++ field_lines fs

abbrev pub render_head : Bytes → Bytes → Bytes → Fields → Bytes
render_head m u v fs = request_line m u v ++ field_lines fs

unfoldable pub AllFields : Fields → Type 0
AllFields [] = Unit
AllFields ((k, w) ∷ fs) = Key k × Value w × AllFields fs

-- The headers that the parser stores, the last value of a key that comes twice.
unfoldable pub stored : (Bytes → Bytes) → Fields → Fields → Fields
stored lower [] acc = acc
stored lower ((k, w) ∷ fs) acc = stored lower fs (set_field (lower k) w acc)

find_lf-NoLf :
    (s rest : Bytes) (size : ℕ)
    → NoLf s
    → length s < size
    → find_lf (s ++ 10 ∷ rest) size ≡ length s
unfolding find_lf
find_lf-NoLf s rest zero h room = absurd (omega arith)
find_lf-NoLf [] rest (suc size) h room = refl
find_lf-NoLf (c ∷ s) rest (suc size) h room =
    ground (arith, h.0, find_lf-NoLf s rest size h.1 (omega arith))

take_line : (s rest : Bytes) → take (suc (length s)) (s ++ 10 ∷ rest) ≡ s ++ 10 ∷ []
take_line [] rest = refl
take_line (c ∷ s) rest = ap (λ x. c ∷ x) (take_line s rest)

module _ (string_to_lower : Bytes → Bytes) where
  parse_lines-line :
      (fuel : ℕ) (s rest : Bytes) (size : ℕ) (h : Head)
      → NoLf s
      → length s < size
      → 4 < size
      → parse_lines string_to_lower (suc fuel) (s ++ 10 ∷ rest) size h
        ≡ parse_lines string_to_lower fuel rest
            (size - suc (length s))
            (parse_head_line string_to_lower (s ++ 10 ∷ []) h)
  unfolding parse_lines
  parse_lines-line fuel s rest size h plain inside more =
      let buf = s ++ 10 ∷ rest in
      let lf : find_lf buf size + 1 ≡ suc (length s) =
        omega (arith, find_lf-NoLf s rest size plain inside) in
      let round : ℕ → Head = λ n.
        parse_lines string_to_lower fuel (drop n buf) (size - n)
          (parse_head_line string_to_lower (take n buf) h) in
      let goes_on : (if ltb 4 size then round (find_lf buf size + 1) else h)
          ≡ round (find_lf buf size + 1) =
        ground arith in
      goes_on
      ∙ ap round lf
      ∙ ap
          (λ x.
            parse_lines string_to_lower fuel x (size - suc (length s))
              (parse_head_line string_to_lower (take (suc (length s)) buf) h))
          (drop_behind s rest)
      ∙ ap
          (λ x.
            parse_lines string_to_lower fuel rest (size - suc (length s))
              (parse_head_line string_to_lower x h))
          (take_line s rest)

-- A line without its '\n'.
abbrev field_stem : Bytes → Bytes → Bytes
field_stem k w = k ++ 58 ∷ 32 ∷ (w ++ 13 ∷ [])

abbrev request_stem : Bytes → Bytes → Bytes → Bytes
request_stem m u v = m ++ 32 ∷ (u ++ 32 ∷ (v ++ 13 ∷ []))

ends_lf : (w r : Bytes) → (w ++ crlf) ++ r ≡ (w ++ 13 ∷ []) ++ 10 ∷ r
ends_lf w r = append_assoc w crlf r ∙ sym (append_assoc w (13 ∷ []) (10 ∷ r))

field_line-stem : (k w r : Bytes) → field_line (k, w) ++ r ≡ field_stem k w ++ 10 ∷ r
field_line-stem k w r =
    append_assoc k (58 ∷ 32 ∷ (w ++ crlf)) r
    ∙ ap (λ x. k ++ 58 ∷ 32 ∷ x) (ends_lf w r)
    ∙ sym (append_assoc k (58 ∷ 32 ∷ (w ++ 13 ∷ [])) (10 ∷ r))

request_line-stem : (m u v r : Bytes) → request_line m u v ++ r ≡ request_stem m u v ++ 10 ∷ r
request_line-stem m u v r =
    append_assoc m (32 ∷ (u ++ 32 ∷ (v ++ crlf))) r
    ∙ ap (λ x. m ++ 32 ∷ x)
        (append_assoc u (32 ∷ (v ++ crlf)) r
          ∙ ap (λ x. u ++ 32 ∷ x) (ends_lf v r)
          ∙ sym (append_assoc u (32 ∷ (v ++ 13 ∷ [])) (10 ∷ r)))
    ∙ sym (append_assoc m (32 ∷ (u ++ 32 ∷ (v ++ 13 ∷ []))) (10 ∷ r))

Value-NoLf : (s : Bytes) → Value s → NoLf s
Value-NoLf [] h = tt
Value-NoLf (c ∷ s) h = (h.1, Value-NoLf s h.3)

Word-NoLf : (s : Bytes) → Word s → NoLf s
Word-NoLf [] h = tt
Word-NoLf (c ∷ s) h = (h.2, Word-NoLf s h.4)

Key-NoLf : (s : Bytes) → Key s → NoLf s
Key-NoLf [] h = tt
Key-NoLf (c ∷ s) h = (h.3, Key-NoLf s h.5)

with_cr : (w : Bytes) → Value w → NoLf (w ++ 13 ∷ [])
with_cr w h = NoLf-append w (13 ∷ []) (Value-NoLf w h) (omega arith, tt)

field_stem-NoLf : (k w : Bytes) → Key k → Value w → NoLf (field_stem k w)
field_stem-NoLf k w hk hw =
    NoLf-append k (58 ∷ 32 ∷ (w ++ 13 ∷ [])) (Key-NoLf k hk)
      (omega arith, (omega arith, with_cr w hw))

request_stem-NoLf : (m u v : Bytes) → Word m → Word u → Value v → NoLf (request_stem m u v)
request_stem-NoLf m u v hm hu hv =
    NoLf-append m (32 ∷ (u ++ 32 ∷ (v ++ 13 ∷ []))) (Word-NoLf m hm) (
      omega arith,
      NoLf-append u (32 ∷ (v ++ 13 ∷ [])) (Word-NoLf u hu) (omega arith, with_cr v hv),
    )

length-field_stem : (k w : Bytes) → length (field_stem k w) ≡ length k + length w + 3
length-field_stem k w =
    omega (arith, length-append k (58 ∷ 32 ∷ (w ++ 13 ∷ [])), length-append w (13 ∷ []))

length-field_line : (k w : Bytes) → length (field_line (k, w)) ≡ suc (length (field_stem k w))
length-field_line k w =
    omega
      (arith, length-field_stem k w, length-append k (58 ∷ 32 ∷ (w ++ crlf)), length-append w crlf)

length-request_stem :
    (m u v : Bytes) → length (request_stem m u v) ≡ length m + length u + length v + 3
length-request_stem m u v = omega (
  arith,
  length-append m (32 ∷ (u ++ 32 ∷ (v ++ 13 ∷ []))),
  length-append u (32 ∷ (v ++ 13 ∷ [])),
  length-append v (13 ∷ []),
)

length-request_line :
    (m u v : Bytes) → length (request_line m u v) ≡ suc (length (request_stem m u v))
length-request_line m u v = omega (
  arith,
  length-request_stem m u v,
  length-append m (32 ∷ (u ++ 32 ∷ (v ++ crlf))),
  length-append u (32 ∷ (v ++ crlf)),
  length-append v crlf,
)

pub length-field_lines : (fs : Fields) → length fs + 2 ≤ length (field_lines fs)
unfolding field_lines
length-field_lines [] = omega arith
length-field_lines ((k, w) ∷ fs) = omega (
  arith,
  length-append (field_line (k, w)) (field_lines fs),
  length-append k (58 ∷ 32 ∷ (w ++ crlf)),
  length-field_lines fs,
)

module _ (string_to_lower : Bytes → Bytes) where
  parse_lines-fields :
      (fuel : ℕ) (fs acc : Fields) (m u v rest : Bytes) (size : ℕ)
      → AllFields fs
      → size ≡ length (field_lines fs)
      → length fs < fuel
      → parse_lines string_to_lower fuel
          (field_lines fs ++ rest)
          size
          (head_of m u v acc header_param_key)
        ≡ head_of m u v (stored string_to_lower fs acc) header_param_key
  unfolding AllFields field_lines stored parse_lines
  parse_lines-fields zero fs acc m u v rest size ok h enough = absurd (omega arith)
  parse_lines-fields (suc fuel) [] acc m u v rest size ok h enough =
      ap
        (λ n.
          parse_lines string_to_lower (suc fuel) (crlf ++ rest) n
            (head_of m u v acc header_param_key))
        h
  parse_lines-fields (suc fuel) ((k, w) ∷ fs) acc m u v rest size ok h enough =
      let stem = field_stem k w in
      let r = field_lines fs ++ rest in
      let now = head_of m u v acc header_param_key in
      let long : length (field_line (k, w)) ≡ suc (length stem) = length-field_line k w in
      let all : size ≡ suc (length stem) + length (field_lines fs) =
        omega (arith, h, long, length-append (field_line (k, w)) (field_lines fs)) in
      ap (λ x. parse_lines string_to_lower (suc fuel) x size now)
        (append_assoc (field_line (k, w)) (field_lines fs) rest ∙ field_line-stem k w r)
      ∙ parse_lines-line string_to_lower fuel stem r size now (field_stem-NoLf k w ok.0 ok.1)
          (omega (arith, all)) (omega (arith, all, length-field_lines fs, length-field_stem k w))
      ∙ ap (parse_lines string_to_lower fuel r (size - suc (length stem))) (
          ap (λ x. parse_head_line string_to_lower x now)
            (sym (field_line-stem k w []) ∙ append-nil (field_line (k, w)))
          ∙ parse_head_line-field string_to_lower k w m u v acc ok.0 ok.1)
      ∙ parse_lines-fields fuel fs (set_field (string_to_lower k) w acc) m u v rest
          (size - suc (length stem)) ok.2 (omega (arith, all)) (omega arith)

  -- All the lines of a request.
  pub parse_lines-head :
      (fuel : ℕ) (m u v rest : Bytes) (fs : Fields)
      → Word m
      → Word u
      → Value v
      → AllFields fs
      → length fs + 1 < fuel
      → parse_lines string_to_lower fuel
          (render_head m u v fs ++ rest)
          (length (render_head m u v fs))
          new_head
        ≡ head_of m u v (stored string_to_lower fs []) header_param_key
  parse_lines-head zero m u v rest fs hm hu hv hf enough = absurd (omega arith)
  parse_lines-head (suc fuel) m u v rest fs hm hu hv hf enough =
      let stem = request_stem m u v in
      let r = field_lines fs ++ rest in
      let size = length (render_head m u v fs) in
      let all : size ≡ suc (length stem) + length (field_lines fs) =
        omega
          (arith, length-append (request_line m u v) (field_lines fs), length-request_line m u v) in
      ap (λ x. parse_lines string_to_lower (suc fuel) x size new_head)
        (append_assoc (request_line m u v) (field_lines fs) rest ∙ request_line-stem m u v r)
      ∙ parse_lines-line string_to_lower fuel stem r size new_head
          (request_stem-NoLf m u v hm hu hv) (omega (arith, all))
          (omega (arith, all, length-field_lines fs, length-request_stem m u v))
      ∙ ap (parse_lines string_to_lower fuel r (size - suc (length stem))) (
          ap (λ x. parse_head_line string_to_lower x new_head)
            (sym (request_line-stem m u v []) ∙ append-nil (request_line m u v))
          ∙ parse_head_line-request string_to_lower m u v hm hu hv)
      ∙ parse_lines-fields fuel fs [] m u v rest (size - suc (length stem)) hf (omega (arith, all))
          (omega arith)
