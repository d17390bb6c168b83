-- ===== src/Http/Response/Codes.antt =====
-- `http_status_map` of pink/src/http_conn.cc, and the codes that `SetStatusCode` takes.
use Prim.Native.Char.{code}
use Prim.Native.String.{String}
use pink.Base.{
  ℕ, ◌+◌, ◌≡◌, Bool, ◌&&◌, ◌||◌, List, [], ◌∷◌, Option, none, some, leb, ltb, true, false, length,
  ◌==◌, if◌then◌else◌, arith,
}
use pink.PubSub.Tables.{Bytes}

abbrev codes : String → Bytes
codes String.[] = []
codes (String.◌∷◌ c s) = code c ∷ codes s

-- The texts of the codes from `first` on.
unfoldable pub phrase_from : ℕ → List Bytes → ℕ → Option Bytes
phrase_from first [] n = none
phrase_from first (t ∷ ts) n =
    let later = phrase_from (first + 1) ts n in if n == first then some t else later

abbrev informational : List Bytes
informational = codes "Continue" ∷ codes "Switching Protocols" ∷ codes "Processing" ∷ []

abbrev successful : List Bytes
successful =
    codes "OK"
    ∷ codes "Created"
    ∷ codes "Accepted"
    ∷ codes "Non-Authoritative Information"
    ∷ codes "No Content"
    ∷ codes "Reset Content"
    ∷ codes "Partial Content"
    ∷ codes "Multi-Status"
    ∷ []

abbrev client_errors : List Bytes
client_errors =
    codes "Bad Request"
    ∷ codes "Unauthorized"
    ∷ []
    ∷ codes "Forbidden"
    ∷ codes "Not Found"
    ∷ codes "Method Not Allowed"
    ∷ codes "Not Acceptable"
    ∷ codes "Proxy Authentication Required"
    ∷ codes "Request Timeout"
    ∷ codes "Conflict"
    ∷ []

abbrev server_errors : List Bytes
server_errors =
    codes "Internal Server Error"
    ∷ codes "Not Implemented"
    ∷ codes "Bad Gateway"
    ∷ codes "Service Unavailable"
    ∷ codes "Gateway Timeout"
    ∷ codes "HTTP Version Not Supported"
    ∷ codes "Variant Also Negotiates"
    ∷ codes "Insufficient Storage"
    ∷ codes "Bandwidth Limit Exceeded"
    ∷ codes "Not Extended"
    ∷ []

-- `http_status_map.at`; none where it throws.
unfoldable pub reason_phrase : ℕ → Option Bytes
reason_phrase n =
    if leb n 199
    then phrase_from 100 informational n
    else if leb n 399
    then phrase_from 200 successful n
    else if n == 416
    then some (codes "Requested Range not satisfiable")
    else if leb n 499
    then phrase_from 400 client_errors n
    else phrase_from 500 server_errors n

-- The assertion in `SetStatusCode`.
unfoldable pub is_status_code : ℕ → Bool
is_status_code code =
    leb 100 code && leb code 102
    || leb 200 code && leb code 207
    || leb 400 code && leb code 409
    || code == 416
    || leb 500 code && leb code 509

abbrev pub is_some : Option Bytes → Bool
is_some none = false
is_some (some t) = true

phrase_from-range :
    (first : ℕ) (ts : List Bytes) (n : ℕ)
    → is_some (phrase_from first ts n) ≡ (leb first n && ltb n (first + length ts))
unfolding phrase_from
phrase_from-range first [] n = ground arith
phrase_from-range first (t ∷ ts) n = ground (arith, phrase_from-range (first + 1) ts n)

-- `http_status_map` has a text for each code that passes the assertion of `SetStatusCode`, and for no
-- other: `at` does not throw for a code that has been set.
pub reason_phrase-is_status_code : (n : ℕ) → is_some (reason_phrase n) ≡ is_status_code n
unfolding reason_phrase is_status_code
reason_phrase-is_status_code n = ground (
  arith,
  phrase_from-range 100 informational n,
  phrase_from-range 200 successful n,
  phrase_from-range 400 client_errors n,
  phrase_from-range 500 server_errors n,
)
