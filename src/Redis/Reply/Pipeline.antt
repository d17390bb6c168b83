-- ===== src/Redis/Reply/Pipeline.antt =====
-- pink/src/redis_cli.cc: several calls of `Recv`, and replies that one `read` brings.
use pink.Base.{
  ℕ, zero, suc, ◌+◌, ◌-◌, ◌≤◌, ◌<◌, ◌≡◌, refl, ap, ◌∙◌, List, [], ◌∷◌, ◌++◌, Option, none, some,
  map, length, append_assoc, length-append, arith,
}
use pink.Redis.Chars.{Bytes, Argv}
use pink.Redis.Conn.{redis_iobuf_len}
use pink.Cli.{ReadResult, read_bytes, Status, ok}
use pink.Redis.Reply.{
  RedisCli, ReplyStatus, redis_ok, filled, buffer_loop, buffer_read, after_read, get_reply_loop,
  get_reply, recv_reply, is_half, status_of,
}
use pink.Redis.Reply.Items.{state}
use pink.Redis.Reply.Whole.{
  Reply, single, many, render_reply, reply_values, SoundReply, recv_reply-whole,
  get_reply_loop-whole, length-render,
}

unfoldable pub render_replies : List Reply → Bytes
render_replies [] = []
render_replies (r ∷ rs) = render_reply r ++ render_replies rs

unfoldable pub SoundReplies : List Reply → Type 0
SoundReplies [] = Unit
SoundReplies (r ∷ rs) = SoundReply r × SoundReplies rs

-- What `Recv` stores in `*trival`, and its status, in so many calls.
unfoldable pub recv_each :
    {W : Type 0}
    → (RedisCli → W → ReplyStatus × RedisCli × W)
    → ℕ
    → RedisCli
    → W
    → List (Option Status × Argv) × RedisCli × W
recv_each recv zero c w = ([], c, w)
recv_each recv (suc n) c w =
    let r = recv c w in
    let later = recv_each recv n r.1 r.2 in ((status_of r.0, r.1.argv) ∷ later.0, later.1, later.2)

abbrev pub answer : Reply → Option Status × Argv
answer r = (some ok, reply_values r)

module _ {W : Type 0} (read : ℕ → W → ReadResult × W) (budget : W → ℕ) where
  -- If the buffer begins with several whole replies, each one item, a line or a text, or an array of such items
  -- with no array in it, with lines that have no '\r', texts at least two bytes shorter than 2^31 bytes and
  -- fewer than 2^31 items, then as many calls of `Recv` return ok with the
  -- values of these replies, in order, keep what is behind them, and do not read.
  pub recv_each-replies :
      (rs : List Reply) (a : Argv) (rest : Bytes) (e : ℕ) (w : W)
      → SoundReplies rs
      → (b : Argv) × (f : ℕ) × (recv_each
            (recv_reply read budget)
            (length rs)
            (state a (render_replies rs ++ rest) e)
            w
          ≡ (map answer rs, state b rest f, w))
  unfolding recv_each render_replies SoundReplies status_of
  recv_each-replies [] a rest e w sound = (a, e, refl)
  recv_each-replies (r ∷ rs) a rest e w sound =
      let (b, f, later) = recv_each-replies rs (reply_values r) rest 0 w sound.1 in
      let first =
        ap (λ x. recv_reply read budget (state a x e) w)
          (append_assoc (render_reply r) (render_replies rs) rest)
        ∙ recv_reply-whole read budget a r (render_replies rs ++ rest) e w sound.0 in
      (
        b,
        f,
        ap (λ o. ((status_of o.0, o.1.argv) ∷ (next rs o).0, (next rs o).1, (next rs o).2)) first
            ∙ ap (λ o. (answer r ∷ o.0, o.1, o.2)) later,
      )
    where
      next : List Reply → ReplyStatus × RedisCli × W → List (Option Status × Argv) × RedisCli × W
      next rs o = recv_each (recv_reply read budget) (length rs) o.1 o.2

  filled-bytes :
      (again : W → _) (c : RedisCli) (bs : Bytes) (v : W)
      → 0 < length bs
      → filled again c (read_bytes bs, v) ≡ (none, record c { rbuf = c.rbuf ++ bs }, v)
  unfolding filled
  filled-bytes again c [] v h = absurd (omega arith)
  filled-bytes again c (x ∷ xs) v h = refl

  pub buffer_loop-bytes :
      (fuel : ℕ) (c : RedisCli) (bs : Bytes) (w v : W)
      → 0 < fuel
      → 0 < length bs
      → read (redis_iobuf_len - length c.rbuf) w ≡ (read_bytes bs, v)
      → buffer_loop read budget fuel c w ≡ (none, record c { rbuf = c.rbuf ++ bs }, v)
  unfolding buffer_loop
  buffer_loop-bytes zero c bs w v h full came = absurd (omega arith)
  buffer_loop-bytes (suc fuel) c bs w v h full came =
      ap (filled (buffer_loop read budget fuel c) c) came
      ∙ filled-bytes (buffer_loop read budget fuel c) c bs v full

  get_reply_loop-full :
      (fuel : ℕ) (bs : Bytes) (w v : W)
      → 0 < fuel
      → 0 < length bs
      → buffer_read read budget (state [] [] 1) w ≡ (none, state [] bs 1, v)
      → get_reply_loop read budget fuel redis_ok (state [] [] 1) w
        ≡ get_reply_loop read budget fuel redis_ok (state [] bs 1) v
  unfolding get_reply_loop is_half after_read
  get_reply_loop-full zero bs w v h full came = absurd (omega arith)
  get_reply_loop-full (suc fuel) bs w v h full came =
      ap (after_read (get_reply_loop read budget fuel)) came ∙ ground arith

  length-render_reply : (r : Reply) → 0 < length (render_reply r)
  length-render_reply (single i) = length-render i
  length-render_reply (many is) = omega arith

  -- If the buffer is empty and the first `read` brings a whole reply, whose lines have no '\r', whose texts
  -- are at least two bytes shorter than 2^31 bytes and whose items are fewer than 2^31, perhaps with more
  -- bytes behind it, then `Recv` returns ok with the values of its items in order, the nil ones left out,
  -- keeps the bytes behind it, and does not read again.
  pub recv_reply-first_read :
      (a : Argv) (r : Reply) (rest : Bytes) (e : ℕ) (w v : W)
      → SoundReply r
      → read redis_iobuf_len w ≡ (read_bytes (render_reply r ++ rest), v)
      → length (render_reply r ++ rest) + budget v ≤ budget w
      → recv_reply read budget (state a [] e) w ≡ (redis_ok, state (reply_values r) rest 0, v)
  unfolding recv_reply get_reply buffer_read
  recv_reply-first_read a r rest e w v sound came bounded =
      let bs = render_reply r ++ rest in
      let full : 0 < length bs =
        omega (arith, length-append (render_reply r) rest, length-render_reply r) in
      let fuel = 0 + budget w + 1 in
      get_reply_loop-full fuel bs w v (omega arith) full
        (buffer_loop-bytes (budget w + 1) (state [] [] 1) bs w v (omega arith) full came)
      ∙ get_reply_loop-whole read budget fuel [] r rest v sound (omega arith)
