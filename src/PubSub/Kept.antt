-- ===== src/PubSub/Kept.antt =====
-- What the operations of pink/src/pink_pubsub.cc, and a delivery that fails, keep of the tables.
use pink.Base.{
  ℕ, ◌≡◌, refl, Bool, true, false, List, [], ◌∷◌, Option, none, some, ℤ, Option-cases, inl, inr,
}
use pink.PubSub.Tables.{Bytes, Table, find, erase_first, update}
use pink.PubSub.Delivery.{
  Slot, entries, referred, remove_referred, forget_referred, move_referred_out,
}
use pink.PubSub.{PubSub, Result, subscribe_loop, unsubscribe_in, unsubscribe_loop}
use pink.PubSub.Once.{
  Once, AllOnce, Once-erase_first, AllOnce-update, AllOnce-find, subscribe_in-AllOnce,
  unsubscribe_in-AllOnce,
}

-- The general channels hold no key, and no vector of patterns holds a connection twice.
pub record IsValid (s : PubSub) : Type 0 where
  pub no_channel : s.pubsub_channel ≡ []
  pub once : AllOnce s.pubsub_pattern

pub subscribe_loop-IsValid :
    (channels : List Bytes) (s : PubSub) (c : ℕ) (pattern : Bool) (n : ℤ) (r : Result)
    → IsValid s
    → IsValid (subscribe_loop s c channels pattern n r).0
unfolding subscribe_loop
subscribe_loop-IsValid [] s c pattern n r v = v
subscribe_loop-IsValid (k ∷ ks) s c pattern n r v =
    subscribe_loop-IsValid ks _ c pattern _ _ (record {
      no_channel = v.no_channel;
      once = subscribe_in-AllOnce s.pubsub_pattern c k n v.once;
    })

unsubscribe_in-nil :
    (t : Table) (c : ℕ) (k : Bytes) (n : ℤ) → t ≡ [] → (unsubscribe_in t c k n).0 ≡ []
unfolding unsubscribe_in find
unsubscribe_in-nil t c k n e = rw e

pub unsubscribe_loop-IsValid :
    (channels : List Bytes) (s : PubSub) (c : ℕ) (pattern : Bool) (n : ℤ) (r : Result)
    → IsValid s
    → IsValid (unsubscribe_loop s c channels pattern n r).0
unfolding unsubscribe_loop
unsubscribe_loop-IsValid [] s c pattern n r v = v
unsubscribe_loop-IsValid (k ∷ ks) s c true n r v =
    unsubscribe_loop-IsValid ks _ c true _ _ (record {
      no_channel = v.no_channel;
      once = unsubscribe_in-AllOnce s.pubsub_pattern c k n v.once;
    })
unsubscribe_loop-IsValid (k ∷ ks) s c false n r v =
    unsubscribe_loop-IsValid ks _ c false _ _ (record {
      no_channel = unsubscribe_in-nil s.pubsub_channel c k n v.no_channel;
      once = v.once;
    })

-- What a delivery leaves, if it gets to its end.
abbrev pub LeavesValid : Option PubSub → Type 0
LeavesValid none = Unit
LeavesValid (some t) = IsValid t

update-nil : (k : Bytes) (w : List ℕ) (t : Table) → t ≡ [] → update k w t ≡ []
unfolding update
update-nil k w t e = rw e refl

entries-Once : (k : Bytes) (t : Table) → AllOnce t → Once (entries k t)
unfolding entries
entries-Once k t h = go (find k t) refl
  where
    go : (o : Option (List ℕ)) → find k t ≡ o → Once (elim o [ none ↦ [] | some v ↦ v ])
    go none e = tt
    go (some v) e = AllOnce-find k v t h e

remove_referred-LeavesValid :
    (which : Bool) (r : Slot) (ks : List Bytes) (s : PubSub)
    → IsValid s
    → LeavesValid (remove_referred which r ks s)
unfolding remove_referred
remove_referred-LeavesValid which r [] s v = v
remove_referred-LeavesValid true r (k ∷ ks) s v = elim (Option-cases (referred s r)) [
  | inl e ↦ rw (e, remove_referred) tt
  | inr (c, e) ↦
      rw (e, remove_referred)
        (remove_referred-LeavesValid true r ks _ (record {
          no_channel = v.no_channel;
          once =
              AllOnce-update k (erase_first c (entries k s.pubsub_pattern)) s.pubsub_pattern v.once
                (Once-erase_first c _ (entries-Once k s.pubsub_pattern v.once));
        }))
]
remove_referred-LeavesValid false r (k ∷ ks) s v = elim (Option-cases (referred s r)) [
  | inl e ↦ rw (e, remove_referred) tt
  | inr (c, e) ↦
      rw (e, remove_referred)
        (remove_referred-LeavesValid false r ks _
          (record { no_channel = update-nil k _ s.pubsub_channel v.no_channel; once = v.once }))
]

forget_referred-LeavesValid :
    (fd : ℕ → ℕ) (r : Slot) (s : PubSub) → IsValid s → LeavesValid (forget_referred fd r s)
unfolding forget_referred
forget_referred-LeavesValid fd r s v = elim (Option-cases (referred s r)) [
  | inl e ↦ rw (e, forget_referred) tt
  | inr (c, e) ↦ rw (e, forget_referred) (record { no_channel = v.no_channel; once = v.once })
]

pub move_referred_out-LeavesValid :
    (fd : ℕ → ℕ) (r : Slot) (s : PubSub) → IsValid s → LeavesValid (move_referred_out fd r s)
unfolding move_referred_out
move_referred_out-LeavesValid fd r s v =
    go _ _ (remove_referred-LeavesValid true r _ s v) (λ t vt.
      go _ _ (remove_referred-LeavesValid false r _ t vt) (forget_referred-LeavesValid fd r))
  where
    go :
        (o : Option PubSub) (f : PubSub → Option PubSub)
        → LeavesValid o
        → ((t : PubSub) → IsValid t → LeavesValid (f t))
        → LeavesValid (elim o [ none ↦ none | some t ↦ f t ])
    go none f v h = tt
    go (some t) f v h = h t v
