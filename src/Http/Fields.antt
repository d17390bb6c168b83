-- ===== src/Http/Fields.antt =====
-- `std::map<std::string, std::string>` in pink/src/http_conn.cc, as a list sorted by its keys.
use pink.Base.{
  ◌≡◌, refl, ap, ◌∙◌, true, false, List, [], ◌∷◌, Option, none, some, if◌then◌else◌, inl, inr,
  Bool-cases,
}
use pink.PubSub.Tables.{Bytes, same, before, same_iff}

abbrev pub Fields : Type 0
Fields = List (Bytes × Bytes)

-- `fields[key] = value`.
unfoldable pub set_field : Bytes → Bytes → Fields → Fields
set_field k v [] = (k, v) ∷ []
set_field k v ((j, w) ∷ fs) =
    let later = set_field k v fs in
    if same j k then (k, v) ∷ fs else if before k j then (k, v) ∷ (j, w) ∷ fs else (j, w) ∷ later

-- `count` and `at`.
unfoldable pub field? : Bytes → Fields → Option Bytes
field? k [] = none
field? k ((j, w) ∷ fs) = if same j k then some w else field? k fs

pub same_refl : (k : Bytes) → same k k ≡ true
same_refl k = (same_iff k k).1 refl

pub field?-set_field : (k v : Bytes) (fs : Fields) → field? k (set_field k v fs) ≡ some v
unfolding field? set_field
field?-set_field k v [] = rw (same_refl k) refl
field?-set_field k v ((j, w) ∷ fs) = elim (Bool-cases (same j k)) [
  | inl e ↦ rw (e, same_refl k) refl
  | inr e ↦ elim (Bool-cases (before k j)) [
    | inl b ↦ rw (e, b, same_refl k) refl
    | inr b ↦ rw (e, b, e) (field?-set_field k v fs)
  ]
]

pub field?-set_other :
    (k l v : Bytes) (fs : Fields) → same k l ≡ false → field? l (set_field k v fs) ≡ field? l fs
unfolding field? set_field
field?-set_other k l v [] h = rw h refl
field?-set_other k l v ((j, w) ∷ fs) h = elim (Bool-cases (same j k)) [
  | inl e ↦
      let j_is : j ≡ k = (same_iff j k).0 e in
      let other : same j l ≡ false = ap (λ x. same x l) j_is ∙ h in rw (e, h, other) refl
  | inr e ↦ elim (Bool-cases (before k j)) [
    | inl b ↦ rw (e, b, h) refl
    | inr b ↦ rw (e, b) (ap (λ x. if same j l then some w else x) (field?-set_other k l v fs h))
  ]
]
