-- ===== src/Redis/Reply/Whole.antt =====
-- pink/src/redis_cli.cc: replies that are whole in the buffer.
use pink.Base.{
  ℕ, zero, suc, ◌+◌, ◌^◌, ◌≤◌, ◌<◌, ◌≡◌, refl, sym, ap, ◌∙◌, List, [], ◌∷◌, ◌++◌, length,
  append_assoc, append-nil, length-append, arith,
}
use pink.Redis.Chars.{Bytes, Argv}
use pink.Redis.Serialize.{to_string, crlf}
use pink.Cli.{ReadResult}
use pink.Redis.Reply.{
  redis_ok, get_reply_from_reader, reply_of_type, process_multi_bulk_item, after_reader, after_read,
  is_half, get_reply_loop, get_reply, recv_reply, one_less,
}
use pink.Redis.Reply.Items.{
  Item, line, text, nil, render, values, Sound, state, given, get_reply_from_reader-item,
  process_multi_bulk_item-header,
}

-- A reply: one item, or an array of items.
pub data Reply : Type 0 where
  single : Item → Reply
  many : List Item → Reply

unfoldable pub render_items : List Item → Bytes
render_items [] = []
render_items (i ∷ is) = render i ++ render_items is

unfoldable pub values_of : List Item → Argv
values_of [] = []
values_of (i ∷ is) = values i ++ values_of is

unfoldable pub AllSound : List Item → Type 0
AllSound [] = Unit
AllSound (i ∷ is) = Sound i × AllSound is

abbrev pub render_reply : Reply → Bytes
render_reply (single i) = render i
render_reply (many is) = b'*' ∷ (to_string (length is) ++ (crlf ++ render_items is))

abbrev pub reply_values : Reply → Argv
reply_values (single i) = values i
reply_values (many is) = values_of is

-- The items are sound, and their number is an int.
abbrev pub SoundReply : Reply → Type 0
SoundReply (single i) = Sound i
SoundReply (many is) = AllSound is × (length is < 2 ^ 31)

pub length-render : (i : Item) → 0 < length (render i)
length-render (line k bs) = omega arith
length-render (text bs) = omega arith
length-render nil = omega arith

length-render_items : (is : List Item) → length is ≤ length (render_items is)
unfolding render_items
length-render_items [] = omega arith
length-render_items (i ∷ is) =
    omega
      (arith, length-append (render i) (render_items is), length-render i, length-render_items is)

module _ {W : Type 0} (read : ℕ → W → ReadResult × W) (budget : W → ℕ) where
  -- A round that does not read.
  get_reply_loop-given :
      (fuel : ℕ) (a : Argv) (buf : Bytes) (e : ℕ) (w : W) (b : Argv) (rest : Bytes) (n : ℕ)
      → 0 < e
      → e < 2 ^ 31
      → 0 < length buf
      → get_reply_from_reader (state a buf e) ≡ given b rest n
      → get_reply_loop read budget (suc fuel) redis_ok (state a buf e) w
        ≡ get_reply_loop read budget fuel redis_ok (state b rest n) w
  unfolding get_reply_loop after_read is_half after_reader
  get_reply_loop-given fuel a buf e w b rest n some_left int full next =
      ground (arith, ap (after_reader (get_reply_loop read budget fuel) w) next)

  get_reply_loop-done :
      (fuel : ℕ) (a : Argv) (buf : Bytes) (w : W)
      → get_reply_loop read budget (suc fuel) redis_ok (state a buf 0) w
        ≡ (redis_ok, state a buf 0, w)
  unfolding get_reply_loop
  get_reply_loop-done fuel a buf w = refl

  get_reply_loop-items :
      (fuel : ℕ) (a : Argv) (is : List Item) (rest : Bytes) (w : W)
      → AllSound is
      → length is < 2 ^ 31
      → length is < fuel
      → get_reply_loop read budget fuel redis_ok (state a (render_items is ++ rest) (length is)) w
        ≡ (redis_ok, state (a ++ values_of is) rest 0, w)
  unfolding AllSound values_of render_items
  get_reply_loop-items zero a is rest w sound int enough = absurd (omega arith)
  get_reply_loop-items (suc fuel) a [] rest w sound int enough =
      get_reply_loop-done fuel a rest w
      ∙ ap (λ x. (redis_ok, state x rest 0, w)) (sym (append-nil a))
  get_reply_loop-items (suc fuel) a (i ∷ is) rest w sound int enough =
      let n = length is in
      let buf = render_items is ++ rest in
      let counted : one_less (suc n) ≡ n = omega arith in
      ap (λ x. get_reply_loop read budget (suc fuel) redis_ok (state a x (suc n)) w)
        (append_assoc (render i) (render_items is) rest)
      ∙ get_reply_loop-given fuel a (render i ++ buf) (suc n) w (a ++ values i) buf n (omega arith)
          int (omega (arith, length-append (render i) buf, length-render i))
          (get_reply_from_reader-item a i buf (suc n) sound.0
            ∙ ap (given (a ++ values i) buf) counted)
      ∙ get_reply_loop-items fuel (a ++ values i) is rest w sound.1 (omega arith) (omega arith)
      ∙ ap (λ x. (redis_ok, state x rest 0, w)) (append_assoc a (values i) (values_of is))

  pub get_reply_loop-whole :
      (fuel : ℕ) (a : Argv) (r : Reply) (rest : Bytes) (w : W)
      → SoundReply r
      → length (render_reply r ++ rest) < fuel
      → get_reply_loop read budget fuel redis_ok (state a (render_reply r ++ rest) 1) w
        ≡ (redis_ok, state (a ++ reply_values r) rest 0, w)
  unfolding AllSound values_of render_items get_reply_from_reader reply_of_type
  get_reply_loop-whole zero a r rest w sound enough = absurd (omega arith)
  get_reply_loop-whole (suc fuel) a (single i) rest w sound enough =
      ap (λ x. get_reply_loop read budget (suc fuel) redis_ok (state a (x ++ rest) 1) w)
        (sym (append-nil (render i)))
      ∙ get_reply_loop-items (suc fuel) a (i ∷ []) rest w (sound, tt) (omega arith)
          (omega (arith, length-append (render i) rest, length-render i))
      ∙ ap (λ x. (redis_ok, state (a ++ x) rest 0, w)) (append-nil (values i))
  get_reply_loop-whole (suc fuel) a (many is) rest w sound enough =
      let n = length is in
      let head = to_string n in
      let split : (head ++ (crlf ++ render_items is)) ++ rest
          ≡ head ++ (crlf ++ (render_items is ++ rest)) =
        append_assoc head (crlf ++ render_items is) rest in
      get_reply_loop-given fuel a (b'*' ∷ ((head ++ (crlf ++ render_items is)) ++ rest)) 1 w a
        (render_items is ++ rest) n (omega arith) (omega arith) (omega arith)
        (ap (λ x. process_multi_bulk_item (state a x 1)) split
          ∙ process_multi_bulk_item-header a n (render_items is ++ rest) 1 (omega arith))
      ∙ get_reply_loop-items fuel a is rest w sound.0 sound.1 (
          omega (
            arith,
            enough,
            length-render_items is,
            length-append (head ++ (crlf ++ render_items is)) rest,
            length-append head (crlf ++ render_items is),
          ))

  -- If the buffer begins with a whole reply, whose lines have no '\r', whose texts are at least two bytes
  -- shorter than 2^31 bytes and whose items are fewer than 2^31, then `Recv` returns ok with the values of
  -- its items in order, the nil ones left out, keeps what is behind it, and does not read.
  pub recv_reply-whole :
      (a : Argv) (r : Reply) (rest : Bytes) (e : ℕ) (w : W)
      → SoundReply r
      → recv_reply read budget (state a (render_reply r ++ rest) e) w
        ≡ (redis_ok, state (reply_values r) rest 0, w)
  unfolding recv_reply get_reply
  recv_reply-whole a r rest e w sound =
      get_reply_loop-whole (length (render_reply r ++ rest) + budget w + 1) [] r rest w sound
        (omega arith)
