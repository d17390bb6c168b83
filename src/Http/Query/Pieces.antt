-- ===== src/Http/Query/Pieces.antt =====
-- What `ParseParameters` of pink/src/http_conn.cc reads, by the pieces between the '&'.
use pink.Base.{
  ℕ, zero, suc, ◌+◌, ◌-◌, ◌≤◌, ◌<◌, ◌≡◌, refl, sym, ap, ◌∙◌, List, [], ◌∷◌, ◌++◌, ◌==◌, leb,
  if◌then◌else◌, length, take, drop, length-drop, length-append, append_assoc, append-nil, arith,
  Bool-cases, inl, inr, if-elim,
}
use pink.PubSub.Tables.{Bytes}
use pink.Http.Fields.{Fields, set_field}
use pink.Http.Query.{find_or_end, set_parameter, parse_parameters_loop, parse_parameters}

-- The pieces that '&' ends or the text ends; there is no empty piece at the end of the text.
unfoldable pub last_piece : Bytes → List Bytes
last_piece [] = []
last_piece (c ∷ s) = (c ∷ s) ∷ []

unfoldable pub pieces : Bytes → Bytes → List Bytes
pieces piece [] = last_piece piece
pieces piece (c ∷ s) = if c == b'&' then piece ∷ pieces [] s else pieces (piece ++ c ∷ []) s

-- A piece is "key=value" or "key": the key and the value.
unfoldable pub key_of : Bytes → Bytes
key_of [] = []
key_of (c ∷ s) = if c == b'=' then [] else c ∷ key_of s

unfoldable pub value_of : Bytes → Bytes
value_of [] = []
value_of (c ∷ s) = if c == b'=' then s else value_of s

unfoldable pub store_pieces : List Bytes → Fields → Fields
store_pieces [] params = params
store_pieces (p ∷ ps) params = store_pieces ps (set_field (key_of p) (value_of p) params)

abbrev first_piece : Bytes → ℕ → Bytes → List Bytes
first_piece p end s = (p ++ take end s) ∷ pieces [] (drop (end + 1) s)

suc_add : (n : ℕ) → suc n + 1 ≡ suc (n + 1)
suc_add n = omega arith

pieces-first :
    (p s : Bytes) → 0 < length p + length s → pieces p s ≡ first_piece p (find_or_end b'&' s) s
unfolding pieces find_or_end last_piece
pieces-first [] [] h = absurd (omega arith)
pieces-first (x ∷ p) [] h = ap (λ y. (x ∷ y) ∷ []) (sym (append-nil p))
pieces-first p (c ∷ s) h = elim (Bool-cases (c == b'&')) [
  | inl e ↦ rw e (ap (λ y. y ∷ pieces [] s) (sym (append-nil p)))
  | inr e ↦
      let end = find_or_end b'&' s in
      let behind : drop (suc end + 1) (c ∷ s) ≡ drop (end + 1) s =
        ap (λ n. drop n (c ∷ s)) (suc_add end) in
      rw e (
        pieces-first (p ++ c ∷ []) s (omega (arith, length-append p (c ∷ [])))
        ∙ ap (λ y. y ∷ pieces [] (drop (end + 1) s)) (append_assoc p (c ∷ []) (take end s))
        ∙ ap (λ y. (p ++ c ∷ take end s) ∷ pieces [] y) (sym behind))
]

find_or_end-le : (b : ℕ) (s : Bytes) → find_or_end b s ≤ length s
unfolding find_or_end
find_or_end-le b [] = omega arith
find_or_end-le b (c ∷ s) = ground (arith, find_or_end-le b s)

-- A piece without '='.
key_only :
    (end : ℕ) (s : Bytes)
    → end ≤ find_or_end b'=' s
    → (key_of (take end s) ≡ take end s) × (value_of (take end s) ≡ [])
unfolding key_of value_of find_or_end
key_only zero s h = (refl, refl)
key_only (suc end) [] h = (refl, refl)
key_only (suc end) (c ∷ s) h = elim (Bool-cases (c == b'=')) [
  | inl e ↦ absurd (ground (arith, h, e))
  | inr e ↦
      let (key, value) = key_only end s (ground (arith, h, e)) in rw e (ap (λ x. c ∷ x) key, value)
]

all_left : (end : ℕ) → suc end - 0 - 1 ≡ end
all_left end = omega arith

shifted :
    (end mid c : ℕ) (s : Bytes)
    → take (end - mid - 1) (drop (mid + 1) s)
      ≡ take (suc end - suc mid - 1) (drop (suc mid + 1) (c ∷ s))
shifted end mid c s =
    let fewer : end - mid - 1 ≡ suc end - suc mid - 1 = omega arith in
    ap (λ n. take n (drop (mid + 1) s)) fewer
    ∙ ap (λ n. take (suc end - suc mid - 1) (drop n (c ∷ s))) (sym (suc_add mid))

-- A piece with '='.
key_and_value :
    (end : ℕ) (s : Bytes)
    → find_or_end b'=' s < end
    → end ≤ length s
    → (key_of (take end s) ≡ take (find_or_end b'=' s) s)
      × (value_of (take end s)
          ≡ take (end - find_or_end b'=' s - 1) (drop (find_or_end b'=' s + 1) s))
unfolding key_of value_of find_or_end
key_and_value zero s h le = absurd (omega arith)
key_and_value (suc end) [] h le = absurd (omega arith)
key_and_value (suc end) (c ∷ s) h le = elim (Bool-cases (c == b'=')) [
  | inl e ↦ rw e (refl, ap (λ n. take n s) (sym (all_left end)))
  | inr e ↦
      let (key, value) = key_and_value end s (ground (arith, h, e)) (omega arith) in
      rw e (ap (λ x. c ∷ x) key, value ∙ shifted end (find_or_end b'=' s) c s)
]

-- A round stores its piece.
set_parameter-piece :
    (rest : Bytes) (end : ℕ) (params : Fields)
    → end ≤ length rest
    → set_parameter rest (find_or_end b'=' rest) end params
      ≡ set_field (key_of (take end rest)) (value_of (take end rest)) params
unfolding set_parameter
set_parameter-piece rest end params h =
    let piece = take end rest in
    if-elim (λ x. x ≡ set_field (key_of piece) (value_of piece) params)
      (leb end (find_or_end b'=' rest))
      (λ b.
        let (key, value) = key_only end rest (ground arith) in
        ap (λ k. set_field k [] params) (sym key)
        ∙ ap (λ v. set_field (key_of piece) v params) (sym value))
      (λ b.
        let (key, value) = key_and_value end rest (ground arith) h in
        let mid = find_or_end b'=' rest in
        ap (λ k. set_field k (take (end - mid - 1) (drop (mid + 1) rest)) params) (sym key)
        ∙ ap (λ v. set_field (key_of piece) v params) (sym value))

parse_parameters_loop-pieces :
    (fuel : ℕ) (rest : Bytes) (params : Fields)
    → length rest ≤ fuel
    → parse_parameters_loop fuel rest params ≡ store_pieces (pieces [] rest) params
unfolding parse_parameters_loop pieces last_piece store_pieces
parse_parameters_loop-pieces zero [] params h = refl
parse_parameters_loop-pieces zero (c ∷ s) params h = absurd (omega arith)
parse_parameters_loop-pieces (suc fuel) [] params h = refl
parse_parameters_loop-pieces (suc fuel) (c ∷ s) params h =
    let rest = c ∷ s in
    let end = find_or_end b'&' rest in
    let behind = drop (end + 1) rest in
    ap (parse_parameters_loop fuel behind)
      (set_parameter-piece rest end params (find_or_end-le b'&' rest))
    ∙ parse_parameters_loop-pieces fuel behind _ (omega (arith, length-drop (end + 1) rest))
    ∙ ap (λ ps. store_pieces ps params) (sym (pieces-first [] rest (omega arith)))

-- `ParseParameters` stores each piece of the text between the '&', in order, under what is before its
-- first '=' as the key and what is behind it as the value, or under the whole piece with an empty value;
-- an empty piece counts, but not at the end of the text.
pub parse_parameters-pieces :
    (buf : Bytes) (line_start : ℕ) (params : Fields)
    → parse_parameters buf line_start params ≡ store_pieces (pieces [] (drop line_start buf)) params
unfolding parse_parameters
parse_parameters-pieces buf line_start params =
    parse_parameters_loop-pieces (length buf) (drop line_start buf) params
      (omega (arith, length-drop line_start buf))
