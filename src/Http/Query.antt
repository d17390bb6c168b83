-- ===== src/Http/Query.antt =====
-- `ParseParameters` and `ParseGetUrl` of pink/src/http_conn.cc.
pub mod Pieces
use pink.Base.{
  ℕ, zero, suc, ◌+◌, ◌-◌, Bool, true, false, ◌&&◌, List, [], ◌∷◌, ◌++◌, Option, none, some, ltb,
  leb, ◌==◌, if◌then◌else◌, length, take, drop,
}
use mathlib.Core.Option
use pink.PubSub.Tables.{Bytes, same}
use pink.Http.Fields.{Fields, set_field, field?}

-- `find` of one byte.
unfoldable pub find_byte : ℕ → Bytes → Option ℕ
find_byte b [] = none
find_byte b (c ∷ s) = let later = Option.map suc (find_byte b s) in if c == b then some 0 else later

-- The same, or the length when it is `npos`.
unfoldable pub find_or_end : ℕ → Bytes → ℕ
find_or_end b [] = 0
find_or_end b (c ∷ s) = let later = suc (find_or_end b s) in if c == b then 0 else later

-- A round of the loop on what is behind `pre`, with `mid` and `end` counted from there.
unfoldable pub set_parameter : Bytes → ℕ → ℕ → Fields → Fields
set_parameter rest mid end params =
    if leb end mid
    then set_field (take end rest) [] params
    else set_field (take mid rest) (take (end - mid - 1) (drop (mid + 1) rest)) params

-- The loop, with fuel.
unfoldable pub parse_parameters_loop : ℕ → Bytes → Fields → Fields
parse_parameters_loop zero rest params = params
parse_parameters_loop (suc fuel) [] params = params
parse_parameters_loop (suc fuel) (c ∷ s) params =
    let rest = c ∷ s in
    let end = find_or_end b'&' rest in
    parse_parameters_loop fuel (drop (end + 1) rest)
      (set_parameter rest (find_or_end b'=' rest) end params)

-- `ParseParameters`, which never returns false; each round takes a byte.
unfoldable pub parse_parameters : Bytes → ℕ → Fields → Fields
parse_parameters buf line_start params =
    parse_parameters_loop (length buf) (drop line_start buf) params

-- `path_.find(host) != npos`.
unfoldable pub starts_with : Bytes → Bytes → Bool
starts_with [] s = true
starts_with (h ∷ hs) [] = false
starts_with (h ∷ hs) (c ∷ s) = h == c && starts_with hs s

unfoldable pub contains : Bytes → Bytes → Bool
contains host [] = starts_with host []
contains host (c ∷ s) =
    let later = contains host s in if starts_with host (c ∷ s) then true else later

-- The path behind "http://" and the host.
unfoldable pub format_path : Bytes → Option Bytes → Bytes
format_path url none = url
format_path url (some host) =
    if contains host url && ltb (7 + length host) (length url)
    then drop (7 + length host) url
    else url

-- `ParseGetUrl`: the path and the parameters.
unfoldable pub split_path : Bytes → Fields → Option ℕ → Bytes × Fields
split_path path params none = (path, params)
split_path path params (some n) = (take n path, parse_parameters path (n + 1) params)

unfoldable pub parse_get_url : Bytes → Fields → Fields → Bytes × Fields
parse_get_url url headers params =
    let path = format_path url (field? (b'h' ∷ b'o' ∷ b's' ∷ b't' ∷ []) headers) in
    split_path path params (find_byte b'?' path)
