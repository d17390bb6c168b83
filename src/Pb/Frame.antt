-- ===== src/Pb/Frame.antt =====
-- The head of a message: its length as four bytes in network order (`htonl`, `ntohl`).
use pink.Base.{
  ℕ, ◌+◌, ◌*◌, ◌/◌, ◌%◌, ◌^◌, ◌≡◌, ◌<◌, refl, List, [], ◌∷◌, ◌++◌, length, arith, get_or,
}

abbrev pub Bytes : Type 0
Bytes = List ℕ

-- The four bytes in memory of htonl(n).
unfoldable pub htonl_bytes : ℕ → Bytes
htonl_bytes n = (n / 2 ^ 24 % 256) ∷ (n / 2 ^ 16 % 256) ∷ (n / 2 ^ 8 % 256) ∷ (n % 256) ∷ []

-- `memcpy` of the first four bytes to a `uint32_t`, and `ntohl`.
unfoldable pub ntohl_bytes : Bytes → ℕ
ntohl_bytes bs =
    get_or bs 0 0 * 2 ^ 24 + get_or bs 1 0 * 2 ^ 16 + get_or bs 2 0 * 2 ^ 8 + get_or bs 3 0

-- `BuildInternalTag`: the size is a `uint32_t`.
unfoldable pub build_internal_tag : Bytes → Bytes
unfolding htonl_bytes
build_internal_tag resp = htonl_bytes (length resp % 2 ^ 32)

pub ntohl-htonl : (n : ℕ) (rest : Bytes) → n < 2 ^ 32 → ntohl_bytes (htonl_bytes n ++ rest) ≡ n
unfolding ntohl_bytes htonl_bytes
ntohl-htonl n rest h = omega arith

pub length-htonl : (n : ℕ) → length (htonl_bytes n) ≡ 4
unfolding htonl_bytes
length-htonl n = refl
