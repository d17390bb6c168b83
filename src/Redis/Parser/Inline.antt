-- ===== src/Redis/Parser/Inline.antt =====
-- `ProcessInlineBuffer` on lines of words.
use pink.Base.{ℕ, suc, ◌≡◌, ◌≢◌, refl, List, [], ◌∷◌, ◌++◌, some, append_assoc, arith, length, drop}
use pink.Redis.Chars.{Bytes}
use pink.Redis.Args.Words.{
  IsPlain, AllPlain, AllWords, AllLines, spell, spell_lines, words_of, split2args-spell_lines,
}
use pink.Redis.Serialize.Decimal.{NoLf, NoLf-append}
use pink.Redis.Stream.Lines.{find_next_separators-append, drop_behind}
use pink.Redis.State.{Parser, done, parser_ok}
use pink.Redis.Parser.{find_next_separators, process_inline_buffer}

plain_ne_lf : (c : ℕ) → IsPlain c → c ≢ 10
plain_ne_lf c h = ground (arith, h.0)

-- What a line of words is without its '\n'.
stem : List Bytes → Bytes
stem [] = 13 ∷ []
stem (w ∷ []) = w ++ 13 ∷ []
stem (w ∷ v ∷ ws) = w ++ 32 ∷ stem (v ∷ ws)

spell-stem : (ws : List Bytes) (rest : Bytes) → spell ws rest ≡ stem ws ++ 10 ∷ rest
unfolding stem
spell-stem [] rest = refl
spell-stem (w ∷ []) rest = simp append_assoc
spell-stem (w ∷ v ∷ ws) rest = simp (spell-stem (v ∷ ws) rest, append_assoc)

AllPlain-NoLf : (w : Bytes) → AllPlain w → NoLf w
AllPlain-NoLf [] h = tt
AllPlain-NoLf (c ∷ w) h = (plain_ne_lf c h.0, AllPlain-NoLf w h.1)

stem-NoLf : (ws : List Bytes) → AllWords ws → NoLf (stem ws)
unfolding stem
stem-NoLf [] h = omega arith
stem-NoLf (w ∷ []) h = NoLf-append w (13 ∷ []) (AllPlain-NoLf w h.0.1) (omega arith)
stem-NoLf (w ∷ v ∷ ws) h =
    NoLf-append w (32 ∷ stem (v ∷ ws)) (AllPlain-NoLf w h.0.1)
      ((λ e. omega arith), stem-NoLf (v ∷ ws) h.1)

find-spell :
    (ws : List Bytes) (rest : Bytes)
    → AllWords ws
    → find_next_separators (spell ws rest) ≡ some (length (stem ws))
find-spell ws rest h = rw spell-stem (find_next_separators-append (stem ws) rest (stem-NoLf ws h))

drop-spell : (ws : List Bytes) (rest : Bytes) → drop (suc (length (stem ws))) (spell ws rest) ≡ rest
drop-spell ws rest = rw spell-stem (drop_behind (stem ws) rest)

-- An inline buffer of lines of plain words gives one command with the words of all the lines, while
-- only the first line is taken from the buffer: the later lines are read again as commands of their
-- own. With one line the command is that line's words.
pub process_inline_buffer-spell_lines :
    {C : Type 0} (p : Parser C) (ws : List Bytes) (wss : List (List Bytes))
    → AllLines (ws ∷ wss)
    → p.input ≡ spell_lines (ws ∷ wss)
    → process_inline_buffer p ≡ record p {
      argv = words_of (ws ∷ wss);
      input = spell_lines wss;
      status_code = done;
      error_code = parser_ok;
    }
unfolding process_inline_buffer
process_inline_buffer-spell_lines p ws wss h e = ground (
  arith,
  e,
  find-spell ws (spell_lines wss) h.0,
  drop-spell ws (spell_lines wss),
  split2args-spell_lines (ws ∷ wss) h,
)
