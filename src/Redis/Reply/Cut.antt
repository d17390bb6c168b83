-- ===== src/Redis/Reply/Cut.antt =====
-- pink/src/redis_cli.cc: a text that has not arrived whole.
use pink.Base.{
  ℕ, zero, suc, ◌+◌, ◌-◌, ◌^◌, ◌≤◌, ◌<◌, ◌≡◌, sym, ap, ◌∙◌, subst, true, false, ◌||◌, if◌then◌else◌,
  [], ◌∷◌, ◌++◌, none, length, append_assoc, ◌==◌, arith,
}
use pink.Redis.Chars.{Bytes, Argv}
use pink.Redis.Conn.{redis_iobuf_len}
use pink.Redis.Serialize.{to_string, crlf}
use pink.Cli.{ReadResult, read_bytes}
use pink.Redis.Reply.{
  RedisCli, ReplyStatus, redis_ok, redis_half, redis_eparse_type, bulk_item, bulk_body,
  process_bulk_item, reply_of_type, get_reply_from_reader, after_reader, after_read, is_half,
  buffer_read, get_reply_loop, get_reply, recv_reply,
}
use pink.Redis.Reply.Items.{
  state, StartsDigit, digits-StartsDigit, seek_newline-NoCr, digits-NoCr, read_int-to_string,
}
use pink.Redis.Reply.Pipeline.{buffer_loop-bytes}

bulk_body-half :
    (a : Argv) (buf : Bytes) (e bytelen len : ℕ)
    → len < 2 ^ 31 - 2
    → length buf < len + 2
    → bulk_body (state a buf e) bytelen len ≡ (redis_half, state a buf e)
unfolding bulk_body
bulk_body-half a buf e bytelen len int short = ground arith

reply_of_type-digit :
    (t : ℕ) (c : RedisCli) → 48 ≤ t → t < 58 → reply_of_type t c ≡ (redis_eparse_type, c)
unfolding reply_of_type
reply_of_type-digit t c low high = ground arith

reader-digit :
    (a : Argv) (buf : Bytes) (e : ℕ)
    → StartsDigit buf
    → (rest : Bytes) × (get_reply_from_reader (state a buf e) ≡ (redis_eparse_type, state a rest e))
unfolding get_reply_from_reader
reader-digit a [] e h = absurd h
reader-digit a (t ∷ rest) e h = (rest, reply_of_type-digit t (state a rest e) h.0 h.1)

-- The line of the length, and the part of the text that is there.
abbrev pub cut_text : ℕ → Bytes → Bytes
cut_text n part = to_string n ++ (crlf ++ part)

cut_text-StartsDigit : (n : ℕ) (part bs : Bytes) → StartsDigit (cut_text n part ++ bs)
cut_text-StartsDigit n part bs =
    subst StartsDigit (sym (append_assoc (to_string n) (crlf ++ part) bs))
      (digits-StartsDigit n n ((crlf ++ part) ++ bs) (omega arith))

process_bulk_item-half :
    (n : ℕ) (part : Bytes)
    → n < 2 ^ 31 - 2
    → length (cut_text n part) < n + 2
    → process_bulk_item (state [] (cut_text n part) 1) ≡ (redis_half, state [] (cut_text n part) 1)
unfolding process_bulk_item bulk_item
process_bulk_item-half n part int short =
    ap (bulk_item (state [] (cut_text n part) 1))
      (seek_newline-NoCr (to_string n) part (digits-NoCr n n))
    ∙ ap (bulk_body (state [] (cut_text n part) 1) (length (to_string n) + 2))
        (read_int-to_string n part (omega arith))
    ∙ bulk_body-half [] (cut_text n part) 1 (length (to_string n) + 2) n int short

module _ {W : Type 0} (read : ℕ → W → ReadResult × W) (budget : W → ℕ) where
  -- What a `Recv` that ends in the parse error returns.
  abbrev pub Refused : W → ReplyStatus × RedisCli × W → Type 0
  Refused v r = (c : RedisCli) × (r ≡ (redis_eparse_type, c, v))

  after_half :
      (fuel n : ℕ) (part bs : Bytes) (w v : W)
      → 0 < fuel
      → 0 < length bs
      → read (redis_iobuf_len - length (cut_text n part)) w ≡ (read_bytes bs, v)
      → Refused v (get_reply_loop read budget fuel redis_half (state [] (cut_text n part) 1) w)
  unfolding get_reply_loop is_half after_read after_reader buffer_read
  after_half zero n part bs w v some_fuel full came = absurd (omega arith)
  after_half (suc fuel) n part bs w v some_fuel full came =
      let c = state [] (cut_text n part) 1 in
      let again = get_reply_loop read budget fuel in
      let reads : (if length (cut_text n part) == 0 || true
            then buffer_read read budget c w
            else (none, c, w))
          ≡ buffer_read read budget c w =
        ground arith in
      let (rest, refused) =
        reader-digit [] (cut_text n part ++ bs) 1 (cut_text-StartsDigit n part bs) in
      (
        state [] rest 1,
        ap (after_read again) (
              reads ∙ buffer_loop-bytes read budget (budget w + 1) c bs w v (omega arith) full came)
            ∙ ap (after_reader again v) refused,
      )

  after_text :
      (fuel n : ℕ) (part bs : Bytes) (w v : W)
      → 1 < fuel
      → n < 2 ^ 31 - 2
      → length (cut_text n part) < n + 2
      → 0 < length bs
      → read (redis_iobuf_len - length (cut_text n part)) w ≡ (read_bytes bs, v)
      → Refused v (get_reply_loop read budget fuel redis_ok (state [] (b'$' ∷ cut_text n part) 1) w)
  unfolding get_reply_loop is_half after_read after_reader get_reply_from_reader reply_of_type
  after_text zero n part bs w v some_fuel int short full came = absurd (omega arith)
  after_text (suc fuel) n part bs w v some_fuel int short full came =
      let c = state [] (b'$' ∷ cut_text n part) 1 in
      let again = get_reply_loop read budget fuel in
      let keeps : (if length (b'$' ∷ cut_text n part) == 0 || false
            then buffer_read read budget c w
            else (none, c, w))
          ≡ (none, c, w) =
        ground arith in
      let (d, refused) = after_half fuel n part bs w v (omega arith) full came in
      (
        d,
        ap (after_read again) keeps
            ∙ ap (after_reader again w) (process_bulk_item-half n part int short)
            ∙ refused,
      )

  -- If the buffer holds the type and the length of a text of fewer than 2^31 - 2 bytes, and behind the type
  -- there are fewer bytes than the text with its "\r\n" has, and the next `read` brings bytes, then `Recv`
  -- returns the parse error of an invalid type, whatever these bytes are: the type has been taken already.
  pub recv_reply-cut :
      (a : Argv) (e n : ℕ) (part bs : Bytes) (w v : W)
      → n < 2 ^ 31 - 2
      → length (cut_text n part) < n + 2
      → 0 < length bs
      → read (redis_iobuf_len - length (cut_text n part)) w ≡ (read_bytes bs, v)
      → Refused v (recv_reply read budget (state a (b'$' ∷ cut_text n part) e) w)
  unfolding recv_reply get_reply
  recv_reply-cut a e n part bs w v int short full came =
      after_text (length (b'$' ∷ cut_text n part) + budget w + 1) n part bs w v (omega arith) int
        short full came
