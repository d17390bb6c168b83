-- ===== src/PubSub/Tables.antt =====
-- `std::map<std::string, std::vector<std::shared_ptr<PinkConn>>>`, as a list sorted by its keys, and
-- the calls of <algorithm> on its vectors.
use pink.Base.{
  ℕ, ◌≡◌, Bool, true, false, ◌&&◌, List, [], ◌∷◌, Option, none, some, ltb, ◌==◌, if◌then◌else◌, ◌↔◌,
  arith,
}

abbrev pub Bytes : Type 0
Bytes = List ℕ

abbrev pub Table : Type 0
Table = List (Bytes × List ℕ)

unfoldable pub same : Bytes → Bytes → Bool
same [] [] = true
same (x ∷ xs) (y ∷ ys) = x == y && same xs ys
same _ _ = false

-- `operator<` of strings.
unfoldable pub before : Bytes → Bytes → Bool
before xs [] = false
before [] (y ∷ ys) = true
before (x ∷ xs) (y ∷ ys) = if x == y then before xs ys else ltb x y

unfoldable pub find : Bytes → Table → Option (List ℕ)
unfolding same
find k [] = none
find k ((j, v) ∷ m) = if same j k then some v else find k m

-- A new key, in its place.
unfoldable pub insert : Bytes → List ℕ → Table → Table
unfolding before
insert k v [] = (k, v) ∷ []
insert k v ((j, w) ∷ m) = if before k j then (k, v) ∷ (j, w) ∷ m else (j, w) ∷ insert k v m

-- A vector that is there is written to.
unfoldable pub update : Bytes → List ℕ → Table → Table
unfolding same
update k v [] = []
update k v ((j, w) ∷ m) = if same j k then (j, v) ∷ m else (j, w) ∷ update k v m

-- `std::find(…) != end()`.
unfoldable pub find_conn : ℕ → List ℕ → Bool
find_conn c [] = false
find_conn c (x ∷ xs) = if x == c then true else find_conn c xs

unfoldable pub erase_first : ℕ → List ℕ → List ℕ
erase_first c [] = []
erase_first c (x ∷ xs) = if x == c then xs else x ∷ erase_first c xs

-- `v.erase(std::remove(…), v.end())`.
unfoldable pub remove_all : ℕ → List ℕ → List ℕ
remove_all c [] = []
remove_all c (x ∷ xs) = let rest = remove_all c xs in if x == c then rest else x ∷ rest

pub same_iff : (a b : Bytes) → (same a b ≡ true) ↔ (a ≡ b)
unfolding same
same_iff (x ∷ a) (y ∷ b) = ground (arith, same_iff a b)
same_iff _ _ = ground arith
