-- ===== src/Http/Head/Chars.antt =====
-- `ParseHeadLine` of pink/src/http_conn.cc on the parts of a line.
use pink.Base.{
  ℕ, ◌≡◌, refl, sym, ap, ◌∙◌, ◌≢◌, [], ◌∷◌, ◌++◌, append_assoc, append-nil, arith, ◌==◌, not, ◌&&◌,
  if◌then◌else◌,
}
use pink.PubSub.Tables.{Bytes}
use pink.Http.Fields.{Fields, set_field}
use pink.Http.Head.{
  RequestParserStatus, header_method, header_path, header_version, header_param_key,
  header_param_value, Head, Line, parse_char, parse_chars, parse_head_line,
}

abbrev pub crlf : Bytes
crlf = 13 ∷ 10 ∷ []

-- No end of a line and no 0.
abbrev pub Value : Bytes → Type 0
Value [] = Unit {0}
Value (c ∷ s) = (c ≢ 13) × (c ≢ 10) × (c ≢ 0) × Value s

-- Besides, no space.
abbrev pub Word : Bytes → Type 0
Word [] = Unit {0}
Word (c ∷ s) = (c ≢ 32) × (c ≢ 13) × (c ≢ 10) × (c ≢ 0) × Word s

-- Besides, no ':'.
abbrev pub Key : Bytes → Type 0
Key [] = Unit {0}
Key (c ∷ s) = (c ≢ 58) × (c ≢ 32) × (c ≢ 13) × (c ≢ 10) × (c ≢ 0) × Key s

abbrev pub head_of : Bytes → Bytes → Bytes → Fields → RequestParserStatus → Head
head_of m u v fs st = record { method = m; url = u; version = v; headers = fs; parse_status = st }

abbrev line_of : Head → Bytes → Bytes → Line
line_of h k v = record { head = h; param_key = k; param_value = v }

if_ne {ℓ} : {A : Type ℓ} (c d : ℕ) (x y : A) → c ≢ d → (if not (c == d) then x else y) ≡ x
if_ne c d x y h = ground arith

if_neither {ℓ} :
    {A : Type ℓ} (c d e : ℕ) (x y : A)
    → c ≢ d
    → c ≢ e
    → (if not (c == d) && not (c == e) then x else y) ≡ x
if_neither c d e x y h k = ground arith

module _ (string_to_lower : Bytes → Bytes) where
  parse_chars-append :
      (xs ys : Bytes) (l : Line)
      → parse_chars string_to_lower (xs ++ ys) l
        ≡ parse_chars string_to_lower ys (parse_chars string_to_lower xs l)
  unfolding parse_chars
  parse_chars-append [] ys l = refl
  parse_chars-append (x ∷ xs) ys l = parse_chars-append xs ys (parse_char string_to_lower x l)

  method_chars :
      (s m u v : Bytes) (fs : Fields) (k w : Bytes)
      → Word s
      → parse_chars string_to_lower s (line_of (head_of m u v fs header_method) k w)
        ≡ line_of (head_of (m ++ s) u v fs header_method) k w
  unfolding parse_chars parse_char
  method_chars [] m u v fs k w h =
      ap (λ x. line_of (head_of x u v fs header_method) k w) (sym (append-nil m))
  method_chars (c ∷ s) m u v fs k w h =
      ap (parse_chars string_to_lower s) (if_ne c 32 _ _ h.0)
      ∙ method_chars s (m ++ c ∷ []) u v fs k w h.4
      ∙ ap (λ x. line_of (head_of x u v fs header_method) k w) (append_assoc m (c ∷ []) s)

  url_chars :
      (s m u v : Bytes) (fs : Fields) (k w : Bytes)
      → Word s
      → parse_chars string_to_lower s (line_of (head_of m u v fs header_path) k w)
        ≡ line_of (head_of m (u ++ s) v fs header_path) k w
  unfolding parse_chars parse_char
  url_chars [] m u v fs k w h =
      ap (λ x. line_of (head_of m x v fs header_path) k w) (sym (append-nil u))
  url_chars (c ∷ s) m u v fs k w h =
      ap (parse_chars string_to_lower s) (if_ne c 32 _ _ h.0)
      ∙ url_chars s m (u ++ c ∷ []) v fs k w h.4
      ∙ ap (λ x. line_of (head_of m x v fs header_path) k w) (append_assoc u (c ∷ []) s)

  version_chars :
      (s m u v : Bytes) (fs : Fields) (k w : Bytes)
      → Value s
      → parse_chars string_to_lower s (line_of (head_of m u v fs header_version) k w)
        ≡ line_of (head_of m u (v ++ s) fs header_version) k w
  unfolding parse_chars parse_char
  version_chars [] m u v fs k w h =
      ap (λ x. line_of (head_of m u x fs header_version) k w) (sym (append-nil v))
  version_chars (c ∷ s) m u v fs k w h =
      ap (parse_chars string_to_lower s) (if_neither c 13 10 _ _ h.0 h.1)
      ∙ version_chars s m u (v ++ c ∷ []) fs k w h.3
      ∙ ap (λ x. line_of (head_of m u x fs header_version) k w) (append_assoc v (c ∷ []) s)

  chars_of_Key :
      (s m u v : Bytes) (fs : Fields) (k w : Bytes)
      → Key s
      → parse_chars string_to_lower s (line_of (head_of m u v fs header_param_key) k w)
        ≡ line_of (head_of m u v fs header_param_key) (k ++ s) w
  unfolding parse_chars parse_char
  chars_of_Key [] m u v fs k w h =
      ap (λ x. line_of (head_of m u v fs header_param_key) x w) (sym (append-nil k))
  chars_of_Key (c ∷ s) m u v fs k w h =
      ap (parse_chars string_to_lower s) (if_neither c 58 32 _ _ h.0 h.1)
      ∙ chars_of_Key s m u v fs (k ++ c ∷ []) w h.5
      ∙ ap (λ x. line_of (head_of m u v fs header_param_key) x w) (append_assoc k (c ∷ []) s)

  chars_of_Value :
      (s m u v : Bytes) (fs : Fields) (k w : Bytes)
      → Value s
      → parse_chars string_to_lower s (line_of (head_of m u v fs header_param_value) k w)
        ≡ line_of (head_of m u v fs header_param_value) k (w ++ s)
  unfolding parse_chars parse_char
  chars_of_Value [] m u v fs k w h =
      ap (λ x. line_of (head_of m u v fs header_param_value) k x) (sym (append-nil w))
  chars_of_Value (c ∷ s) m u v fs k w h =
      ap (parse_chars string_to_lower s) (if_neither c 13 10 _ _ h.0 h.1)
      ∙ chars_of_Value s m u v fs k (w ++ c ∷ []) h.3
      ∙ ap (λ x. line_of (head_of m u v fs header_param_value) k x) (append_assoc w (c ∷ []) s)

  -- The first line, "method url version\r\n".
  pub parse_head_line-request :
      (m u v : Bytes)
      → Word m
      → Word u
      → Value v
      → parse_head_line string_to_lower
          (m ++ 32 ∷ (u ++ 32 ∷ (v ++ crlf)))
          (head_of [] [] [] [] header_method)
        ≡ head_of m u v [] header_param_key
  unfolding parse_head_line parse_chars parse_char
  parse_head_line-request m u v hm hu hv =
      let run = parse_chars string_to_lower in
      ap (λ l. l.head)
        (parse_chars-append m (32 ∷ (u ++ 32 ∷ (v ++ crlf)))
            (line_of (head_of [] [] [] [] header_method) [] [])
          ∙ ap (run (32 ∷ (u ++ 32 ∷ (v ++ crlf)))) (method_chars m [] [] [] [] [] [] hm)
          ∙ parse_chars-append u (32 ∷ (v ++ crlf)) (line_of (head_of m [] [] [] header_path) [] [])
          ∙ ap (run (32 ∷ (v ++ crlf))) (url_chars u m [] [] [] [] [] hu)
          ∙ parse_chars-append v crlf (line_of (head_of m u [] [] header_version) [] [])
          ∙ ap (run crlf) (version_chars v m u [] [] [] [] hv))

  -- A line "key: value\r\n".
  pub parse_head_line-field :
      (k w m u v : Bytes) (fs : Fields)
      → Key k
      → Value w
      → parse_head_line string_to_lower
          (k ++ 58 ∷ 32 ∷ (w ++ crlf))
          (head_of m u v fs header_param_key)
        ≡ head_of m u v (set_field (string_to_lower k) w fs) header_param_key
  unfolding parse_head_line parse_chars parse_char
  parse_head_line-field k w m u v fs hk hw =
      let run = parse_chars string_to_lower in
      ap (λ l. l.head)
        (parse_chars-append k (58 ∷ 32 ∷ (w ++ crlf))
            (line_of (head_of m u v fs header_param_key) [] [])
          ∙ ap (run (58 ∷ 32 ∷ (w ++ crlf))) (chars_of_Key k m u v fs [] [] hk)
          ∙ parse_chars-append w crlf (line_of (head_of m u v fs header_param_value) k [])
          ∙ ap (run crlf) (chars_of_Value w m u v fs k [] hw))
