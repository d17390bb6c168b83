-- ===== src/PubSub/General.antt =====
-- The channels of general mode, in pink/src/pink_pubsub.cc.
use pink.Base.{ℕ, ◌≡◌, refl, List, [], ◌∷◌, map}
use pink.PubSub.Tables.{Bytes, Table}
use pink.PubSub.{PubSub, StringMatch, pubsub_channels, size_of, pubsub_num_sub}
use pink.PubSub.Removal.{Op, after, after-IsValid}

pubsub_channels-nil :
    (match : StringMatch) (s : PubSub) (pattern : Bytes)
    → s.pubsub_channel ≡ []
    → pubsub_channels match s pattern ≡ []
unfolding pubsub_channels
pubsub_channels-nil match s [] e = rw e
pubsub_channels-nil match s (c ∷ pattern) e = rw e

size_of-nil : (t : Table) (k : Bytes) → t ≡ [] → size_of k t 0 ≡ 0
unfolding size_of
size_of-nil t k e = rw e

pubsub_num_sub-nil :
    (s : PubSub) (ks : List Bytes)
    → s.pubsub_channel ≡ []
    → pubsub_num_sub s ks ≡ map (λ k. (k, 0)) ks
unfolding pubsub_num_sub
pubsub_num_sub-nil s [] e = refl
pubsub_num_sub-nil s (k ∷ ks) e =
    λ i. (k, size_of-nil s.pubsub_channel k e i) ∷ pubsub_num_sub-nil s ks e i

-- After any history, general subscriptions included, the table of general channels is empty:
-- `PubSubChannels` lists no channel, and `PubSubNumSub` answers 0 for each.
pub after-pubsub_channel :
    (fd : ℕ → ℕ) (match : StringMatch) (os : List Op) (pattern : Bytes) (channels : List Bytes)
    → ((after fd os).pubsub_channel ≡ [])
      × (pubsub_channels match (after fd os) pattern ≡ [])
      × (pubsub_num_sub (after fd os) channels ≡ map (λ k. (k, 0)) channels)
after-pubsub_channel fd match os pattern channels =
    let v = after-IsValid fd os in
    (
      v.no_channel,
      pubsub_channels-nil match (after fd os) pattern v.no_channel,
      pubsub_num_sub-nil (after fd os) channels v.no_channel,
    )
