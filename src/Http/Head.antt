-- ===== src/Http/Head.antt =====
-- The head of a request in pink/src/http_conn.cc: `find_lf`, `ParseHeadLine` and the lines of `ParseHeader`.
-- `StringToLower` of slash is a parameter.
pub mod Chars
pub mod Lines
use pink.Base.{
  ℕ, zero, suc, ◌+◌, ◌-◌, Bool, true, false, ◌&&◌, ◌||◌, List, [], ◌∷◌, ◌++◌, Option, none, some,
  ltb, leb, ◌==◌, if◌then◌else◌, length, take, drop, not,
}
use mathlib.Core.Option
use pink.PubSub.Tables.{Bytes}
use pink.Http.Fields.{Fields, set_field, field?}

-- `RequestParserStatus`.
pub data RequestParserStatus : Type 0 where
  header_method header_path header_version header_param_key header_param_value : RequestParserStatus

-- The fields of `HTTPRequest` that the parser of the head fills.
pub record Head : Type 0 where
  pub method : Bytes
  pub url : Bytes
  pub version : Bytes
  pub headers : Fields
  pub parse_status : RequestParserStatus

abbrev pub new_head : Head
new_head = record {
  method = [];
  url = [];
  version = [];
  headers = [];
  parse_status = header_method;
}

-- The number of bytes before the first '\n' of the first `size`.
unfoldable pub find_lf : Bytes → ℕ → ℕ
find_lf buf zero = 0
find_lf [] (suc size) = suc size
find_lf (c ∷ buf) (suc size) = let later = suc (find_lf buf size) in if c == 10 then 0 else later

-- `strstr(rbuf_, "\r\n\r\n")`: a 0 ends the text.
unfoldable pub is_separator : Bytes → Bool
is_separator (a ∷ b ∷ c ∷ d ∷ s) = a == 13 && b == 10 && c == 13 && d == 10
is_separator s = false

unfoldable pub find_separator : Bytes → Option ℕ
find_separator [] = none
find_separator (c ∷ s) =
    let later = Option.map suc (find_separator s) in
    if is_separator (c ∷ s) then some 0 else if c == 0 then none else later

-- `param_key` and `param_value` live as long as the line.
pub record Line : Type 0 where
  pub head : Head
  pub param_key : Bytes
  pub param_value : Bytes

module _ (string_to_lower : Bytes → Bytes) where
  -- The switch of `ParseHeadLine` on one byte.
  unfoldable pub parse_char : ℕ → Line → Line
  parse_char c l =
      let h = l.head in
      elim h.parse_status [
        | header_method ↦
            if not (c == b' ')
            then record l { head = record h { method = h.method ++ c ∷ [] } }
            else record l { head = record h { parse_status = header_path } }
        | header_path ↦
            if not (c == b' ')
            then record l { head = record h { url = h.url ++ c ∷ [] } }
            else record l { head = record h { parse_status = header_version } }
        | header_version ↦
            if not (c == 13) && not (c == 10)
            then record l { head = record h { version = h.version ++ c ∷ [] } }
            else if c == 10
            then record l { head = record h { parse_status = header_param_key } }
            else l
        | header_param_key ↦
            if not (c == b':') && not (c == b' ')
            then record l { param_key = l.param_key ++ c ∷ [] }
            else if c == b' '
            then record l { head = record h { parse_status = header_param_value } }
            else l
        | header_param_value ↦
            if not (c == 13) && not (c == 10)
            then record l { param_value = l.param_value ++ c ∷ [] }
            else if c == 13
            then record l {
              head = record h {
                headers = set_field (string_to_lower l.param_key) l.param_value h.headers;
                parse_status = header_param_key;
              };
            }
            else l
      ]

  unfoldable pub parse_chars : Bytes → Line → Line
  parse_chars [] l = l
  parse_chars (c ∷ s) l = parse_chars s (parse_char c l)

  -- `ParseHeadLine`, which never returns false: each state is one of the five.
  unfoldable pub parse_head_line : Bytes → Head → Head
  parse_head_line s h = (parse_chars s (record { head = h; param_key = []; param_value = [] })).head

  -- The loop of `ParseHeader` on what is behind `line_start`, with fuel.
  unfoldable pub parse_lines : ℕ → Bytes → ℕ → Head → Head
  parse_lines zero buf remain_size h = h
  parse_lines (suc fuel) buf remain_size h =
      let line_size = find_lf buf remain_size + 1 in
      if ltb 4 remain_size
      then parse_lines fuel (drop line_size buf) (remain_size - line_size)
          (parse_head_line (take line_size buf) h)
      else h
