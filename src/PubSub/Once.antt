-- ===== src/PubSub/Once.antt =====
-- The vectors of the tables in pink/src/pink_pubsub.cc, in which no connection stands twice.
use pink.Base.{
  ℕ, ◌≡◌, ◌≢◌, refl, false, List, [], ◌∷◌, ◌++◌, some, ℤ, arith, Option-cases, Bool-cases, inl, inr,
}
use pink.PubSub.Tables.{
  Bytes, Table, find, find_conn, erase_first, remove_all, insert, update, same,
}
use pink.PubSub.{count_in, subscribe_in, remove_from, unsubscribe_in}

-- No connection stands twice in a vector.
abbrev pub Once : List ℕ → Type 0
Once [] = Unit {0}
Once (x ∷ xs) = (find_conn x xs ≡ false) × Once xs

abbrev pub AllOnce : Table → Type 0
AllOnce [] = Unit {0}
AllOnce ((k, v) ∷ t) = Once v × AllOnce t

find_conn-concat_ne :
    (c x : ℕ) (v : List ℕ) → find_conn c v ≡ false → c ≢ x → find_conn c (v ++ x ∷ []) ≡ false
unfolding find_conn
find_conn-concat_ne c x [] h ne = ground arith
find_conn-concat_ne c x (y ∷ v) h ne = ground (arith, find_conn-concat_ne c x v)

Once-concat : (c : ℕ) (v : List ℕ) → Once v → find_conn c v ≡ false → Once (v ++ c ∷ [])
unfolding find_conn
Once-concat c [] h n = (refl, tt)
Once-concat c (x ∷ v) h n =
    (ground (arith, find_conn-concat_ne x c v h.0), Once-concat c v h.1 (ground arith))

find_conn-remove_all :
    (c x : ℕ) (v : List ℕ) → find_conn x v ≡ false → find_conn x (remove_all c v) ≡ false
unfolding find_conn remove_all
find_conn-remove_all c x [] h = refl
find_conn-remove_all c x (y ∷ v) h = ground (arith, find_conn-remove_all c x v)

Once-remove_all : (c : ℕ) (v : List ℕ) → Once v → Once (remove_all c v)
unfolding remove_all
Once-remove_all c [] h = tt
Once-remove_all c (x ∷ v) h =
    ground (arith, find_conn-remove_all c x v h.0, Once-remove_all c v h.1)

find_conn-erase_first :
    (c x : ℕ) (v : List ℕ) → find_conn x v ≡ false → find_conn x (erase_first c v) ≡ false
unfolding find_conn erase_first
find_conn-erase_first c x [] h = refl
find_conn-erase_first c x (y ∷ v) h = ground (arith, find_conn-erase_first c x v)

pub Once-erase_first : (c : ℕ) (v : List ℕ) → Once v → Once (erase_first c v)
unfolding erase_first
Once-erase_first c [] h = tt
Once-erase_first c (x ∷ v) h =
    ground (arith, find_conn-erase_first c x v h.0, Once-erase_first c v h.1)

erase_first-find_conn : (c : ℕ) (v : List ℕ) → Once v → find_conn c (erase_first c v) ≡ false
unfolding find_conn erase_first
erase_first-find_conn c [] h = refl
erase_first-find_conn c (x ∷ v) h = ground (arith, h.0, erase_first-find_conn c v h.1)

erase_first-find_conn_ne :
    (c d : ℕ) (v : List ℕ) → d ≢ c → find_conn d (erase_first c v) ≡ find_conn d v
unfolding find_conn erase_first
erase_first-find_conn_ne c d [] h = refl
erase_first-find_conn_ne c d (x ∷ v) h = ground (arith, erase_first-find_conn_ne c d v h)

AllOnce-insert : (c : ℕ) (k : Bytes) (t : Table) → AllOnce t → AllOnce (insert k (c ∷ []) t)
unfolding insert find_conn
AllOnce-insert c k [] h = ((refl, tt), tt)
AllOnce-insert c k ((j, v) ∷ t) h = ground (arith, AllOnce-insert c k t h.1)

pub AllOnce-update :
    (k : Bytes) (w : List ℕ) (t : Table) → AllOnce t → Once w → AllOnce (update k w t)
unfolding update
AllOnce-update k w [] h g = tt
AllOnce-update k w ((j, v) ∷ t) h g = ground (arith, AllOnce-update k w t h.1 g)

pub AllOnce-find : (k : Bytes) (v : List ℕ) (t : Table) → AllOnce t → find k t ≡ some v → Once v
unfolding find
AllOnce-find k v [] h e = cc
AllOnce-find k v ((j, w) ∷ t) h e = elim (Bool-cases (same j k)) [
  | inl here ↦ let w≡v : w ≡ v = ground (arith, here) in rw (← w≡v) h.0
  | inr later ↦ AllOnce-find k v t h.1 (ground (arith, later))
]

pub subscribe_in-AllOnce :
    (t : Table) (c : ℕ) (k : Bytes) (n : ℤ) → AllOnce t → AllOnce (subscribe_in t c k n).0
unfolding subscribe_in
subscribe_in-AllOnce t c k n h = elim (Option-cases (find k t)) [
  | inl e ↦ rw (e, subscribe_in) (AllOnce-insert c k t h)
  | inr (v, e) ↦ elim (Bool-cases (find_conn c v)) [
    | inl there ↦ rw (e, subscribe_in) (rw there h)
    | inr new ↦
        rw (e, subscribe_in)
          (rw new
            (AllOnce-update k (v ++ c ∷ []) t h (Once-concat c v (AllOnce-find k v t h e) new)))
  ]
]

pub unsubscribe_in-AllOnce :
    (t : Table) (c : ℕ) (k : Bytes) (n : ℤ) → AllOnce t → AllOnce (unsubscribe_in t c k n).0
unfolding unsubscribe_in
unsubscribe_in-AllOnce t c k n h = elim (Option-cases (find k t)) [
  | inl e ↦ rw (e, unsubscribe_in) h
  | inr (v, e) ↦ elim (Bool-cases (find_conn c v)) [
    | inl there ↦
        rw (e, unsubscribe_in)
          (rw there
            (AllOnce-update k (remove_all c v) t h (Once-remove_all c v (AllOnce-find k v t h e))))
    | inr new ↦ rw (e, unsubscribe_in) (rw new h)
  ]
]

pub remove_from-AllOnce : (c : ℕ) (t : Table) → AllOnce t → AllOnce (remove_from c t)
unfolding remove_from
remove_from-AllOnce c [] h = tt
remove_from-AllOnce c ((k, v) ∷ t) h = (Once-erase_first c v h.0, remove_from-AllOnce c t h.1)

pub count_in-remove_from : (c : ℕ) (t : Table) → AllOnce t → count_in c (remove_from c t) ≡ 0
unfolding count_in remove_from
count_in-remove_from c [] h = refl
count_in-remove_from c ((k, v) ∷ t) h =
    ground (arith, erase_first-find_conn c v h.0, count_in-remove_from c t h.1)

pub count_in-remove_from_ne :
    (c d : ℕ) (t : Table) → d ≢ c → count_in d (remove_from c t) ≡ count_in d t
unfolding count_in remove_from
count_in-remove_from_ne c d [] h = refl
count_in-remove_from_ne c d ((k, v) ∷ t) h =
    ground (arith, erase_first-find_conn_ne c d v h, count_in-remove_from_ne c d t h)
