-- ===== src/PubSub/Publish.antt =====
-- pink/src/pink_pubsub.cc: the messages that `ThreadMain` publishes, with the reader of replies of
-- pink/src/redis_cli.cc.
use pink.Base.{
  ℕ, ◌<◌, ◌-◌, ◌^◌, ◌≡◌, sym, ap, ◌∙◌, Bool, true, false, [], ◌∷◌, ◌++◌, if◌then◌else◌, length,
  append-nil, arith,
}
use pink.PubSub.Tables.{Bytes}
use pink.Redis.Chars.{Argv}
use pink.Redis.Serialize.{digits, to_string, crlf}
use pink.Cli.{ReadResult}
use pink.Redis.Reply.{redis_ok, recv_reply}
use pink.Redis.Reply.Items.{text, state}
use pink.Redis.Reply.Whole.{
  Reply, many, render_reply, render_items, values_of, AllSound, recv_reply-whole,
}

abbrev pub common_msg : Bytes
common_msg = b'm' ∷ b'e' ∷ b's' ∷ b's' ∷ b'a' ∷ b'g' ∷ b'e' ∷ []

abbrev pub pattern_msg : Bytes
pattern_msg = b'p' ∷ common_msg

-- "$" << s.length() << "\r\n" << s << "\r\n".
abbrev put : Bytes → Bytes
put s = b'$' ∷ (to_string (length s) ++ (crlf ++ (s ++ crlf)))

-- `ConstructPublishResp`.
unfoldable pub construct_publish_resp : Bytes → Bytes → Bytes → Bool → Bytes
construct_publish_resp subscribe_channel publish_channel msg pattern =
    if pattern
    then b'*'
      ∷ b'4'
      ∷ (crlf ++ (put pattern_msg ++ (put subscribe_channel ++ (put publish_channel ++ put msg))))
    else b'*' ∷ b'3' ∷ (crlf ++ (put common_msg ++ (put publish_channel ++ put msg)))

-- What a subscriber is to get.
abbrev pub parts : Bytes → Bytes → Bytes → Bool → Argv
parts subscribe_channel publish_channel msg true =
    pattern_msg ∷ subscribe_channel ∷ publish_channel ∷ msg ∷ []
parts subscribe_channel publish_channel msg false = common_msg ∷ publish_channel ∷ msg ∷ []

abbrev reply_of : Bytes → Bytes → Bytes → Bool → Reply
reply_of s p m true = many (text pattern_msg ∷ text s ∷ text p ∷ text m ∷ [])
reply_of s p m false = many (text common_msg ∷ text p ∷ text m ∷ [])

construct_publish_resp-reply :
    (s p m : Bytes) (pattern : Bool)
    → construct_publish_resp s p m pattern ≡ render_reply (reply_of s p m pattern)
unfolding construct_publish_resp render_items digits
construct_publish_resp-reply s p m true =
    ap (λ x. b'*' ∷ b'4' ∷ (crlf ++ (put pattern_msg ++ (put s ++ (put p ++ x)))))
      (sym (append-nil (put m)))
construct_publish_resp-reply s p m false =
    ap (λ x. b'*' ∷ b'3' ∷ (crlf ++ (put common_msg ++ (put p ++ x)))) (sym (append-nil (put m)))

-- The redis client reads a published message from a buffer that begins with the whole of it, as one that is
-- not longer than the buffer of 16384 bytes can come: `Recv` returns ok with the
-- kind, for a pattern the pattern, the channel and the message, keeps what is behind it and does not read,
-- if each of these texts is at least two bytes shorter than 2^31 bytes.
pub recv_reply-construct_publish_resp :
    {W : Type 0} (read : ℕ → W → ReadResult × W) (budget : W → ℕ) (s p m : Bytes) (pattern : Bool)
    (a : Argv) (rest : Bytes) (e : ℕ) (w : W)
    → length s < 2 ^ 31 - 2
    → length p < 2 ^ 31 - 2
    → length m < 2 ^ 31 - 2
    → recv_reply read budget (state a (construct_publish_resp s p m pattern ++ rest) e) w
      ≡ (redis_ok, state (parts s p m pattern) rest 0, w)
unfolding values_of AllSound
recv_reply-construct_publish_resp read budget s p m true a rest e w hs hp hm =
    ap (λ x. recv_reply read budget (state a (x ++ rest) e) w)
      (construct_publish_resp-reply s p m true)
    ∙ recv_reply-whole read budget a (reply_of s p m true) rest e w
        ((omega arith, (hs, (hp, (hm, tt)))), omega arith)
recv_reply-construct_publish_resp read budget s p m false a rest e w hs hp hm =
    ap (λ x. recv_reply read budget (state a (x ++ rest) e) w)
      (construct_publish_resp-reply s p m false)
    ∙ recv_reply-whole read budget a (reply_of s p m false) rest e w
        ((omega arith, (hp, (hm, tt))), omega arith)
