-- ===== src/Redis/Stream/Chunks.antt =====
-- A pipeline of commands that arrives in pieces: pink/src/redis_cli.cc writes it, and
-- pink/src/redis_parser.cc reads it in one call of `ProcessInputBuffer` for each piece.
use mathlib.Core.List.{flatten}
use pink.Base.{
  ℕ, ◌≡◌, refl, sym, ap, ◌∙◌, ◌⊎◌, inl, inr, List, [], ◌∷◌, ◌++◌, append_assoc, append-nil, map,
  none,
}
use pink.Redis.Chars.{Bytes, Argv}
use pink.Redis.State.{
  Run, ok, ◌>>=◌, Parser, ParserStatus, parser_none, init_done, error, half, done, fresh,
}
use pink.Redis.Parser.{StringToLong, lower_name, redis_parser_init, process_input_buffer}
use pink.Redis.Serialize.{redis_format_command_argv}
use pink.Redis.Stream.Lines.{ReadsDecimals}
use pink.Redis.Stream.Phase.{
  Log, recording, Phase, boundary, header, bulk_line, bulk_body, wire, stream, pending, Frame,
  parser_at,
}
use pink.Redis.Stream.Pipeline.{AllFit, Agrees, IsAccepting, process_input_buffer-Ends}

-- One call for each piece.
unfoldable pub feed : {C : Type 0} → StringToLong → Parser C → List Bytes → Run (Parser C)
feed string2l p [] = ok p
feed string2l p (t ∷ ts) = process_input_buffer string2l p t >>= λ q. feed string2l q ts

abbrev pub nothing_yet : Log
nothing_yet = record { dealt = []; completed = [] }

-- A parser of requests with recording callbacks.
abbrev pub initial : Parser Log
initial =
    redis_parser_init (fresh (record { deal_message = none; complete = none }) nothing_yet) 1
      recording

-- The parser between commands, with nothing put aside and `Complete` called for all.
abbrev pub idle : Log → Parser Log
idle log = parser_at (record { argvs = []; log = log; size = 0 }) done boundary [] []

stream-nil : (ph : Phase) (cs : List Argv) → stream ph cs ≡ [] → (ph ≡ boundary) × (cs ≡ [])
unfolding redis_format_command_argv
stream-nil boundary [] e = (refl, refl)
stream-nil boundary (c ∷ cs) e = cc
stream-nil (header c) cs e = cc
stream-nil (bulk_line argv a args) cs e = cc
stream-nil (bulk_body argv [] args) cs e = cc
stream-nil (bulk_body argv (x ∷ a) args) cs e = cc

flatten-cons : (t : Bytes) (ts : List Bytes) → flatten (t ∷ ts) ≡ t ++ flatten ts
unfolding flatten
flatten-cons t ts = refl

flatten-nil : flatten {A = ℕ} [] ≡ []
unfolding flatten
flatten-nil = refl

idle_lem :
    (f : Frame) (s : ParserStatus) (ph : Phase) (h : Bytes)
    → f.size ≡ 0
    → s ≡ done
    → ph ≡ boundary
    → h ≡ []
    → f.argvs ≡ []
    → parser_at f s ph h [] ≡ idle f.log
idle_lem f s ph h z d b n a =
    λ i. parser_at (record { argvs = a i; log = f.log; size = z i }) (d i) (b i) (n i) []

settled_lem :
    (f : Frame) → f.argvs ≡ [] → Agrees f → flatten f.log.completed ≡ map lower_name f.log.dealt
settled_lem f none_left g =
    sym (append-nil (flatten f.log.completed))
    ∙ ap (λ y. flatten f.log.completed ++ map lower_name y) (sym none_left)
    ∙ g

accepts : (s : ParserStatus) → (s ≡ done) ⊎ (s ≡ half) → IsAccepting s
accepts parser_none (inl e) = cc
accepts parser_none (inr e) = cc
accepts error (inl e) = cc
accepts error (inr e) = cc
accepts _ e = tt

nothing-Agrees : (f : Frame) → f.argvs ≡ [] → f.log.dealt ≡ [] → f.log.completed ≡ [] → Agrees f
unfolding flatten
nothing-Agrees f a d c = rw (a, d, c)

module _ (string2l : StringToLong) (law : ReadsDecimals string2l) where
  feed-cons :
      (p q : Parser Log) (t : Bytes) (ts : List Bytes)
      → process_input_buffer string2l p t ≡ ok q
      → feed string2l p (t ∷ ts) ≡ feed string2l q ts
  unfolding feed
  feed-cons p q t ts e = rw e

  feed-nil : (p : Parser Log) → feed string2l p [] ≡ ok p
  unfolding feed
  feed-nil p = refl

  -- All of `cs` has been delivered, and the parser rests.
  record Delivers (f : Frame) (all : List Argv) (r : Run (Parser Log)) : Type 0 where
    log : Log
    result : r ≡ ok (idle log)
    dealt : log.dealt ≡ all
    completed : Agrees f → flatten log.completed ≡ map lower_name all

  feed_last :
      (f : Frame) (s : ParserStatus) (ph : Phase) (cs : List Argv) (h t : Bytes)
      → f.size ≡ 0
      → IsAccepting s
      → (h ++ t) ++ [] ≡ stream ph cs
      → AllFit (pending ph cs)
      → Delivers f (f.log.dealt ++ pending ph cs) (feed string2l (parser_at f s ph h []) (t ∷ []))
  feed_last f s ph cs h t z a e fit =
      let x = process_input_buffer-Ends string2l law f s ph cs h t [] z a e fit in
      elim x.finished [
        | inr (_, more) ↦ absurd (more refl)
        | inl (d, aside, batch) ↦
            let (at, none_left) =
              stream-nil x.phase x.rest (sym x.stands ∙ ap (λ y. y ++ []) aside) in
            let delivered : x.frame.log.dealt ≡ f.log.dealt ++ pending ph cs =
              sym (append-nil x.frame.log.dealt)
              ∙ ap (λ y. x.frame.log.dealt ++ y) (sym (ap (λ y. pending y x.rest) at ∙ none_left))
              ∙ x.delivered in
            record {
              log = x.frame.log;
              result =
                  feed-cons _ _ t [] x.result
                  ∙ feed-nil _
                  ∙ ap ok
                      (idle_lem x.frame x.status x.phase x.aside (x.sized ∙ z) d at aside batch);
              dealt = delivered;
              completed =
                  λ g. settled_lem x.frame batch (x.agrees g) ∙ ap (map lower_name) delivered;
            }
      ]

  feed_pieces :
      (ts : List Bytes) (t : Bytes) (f : Frame) (s : ParserStatus) (ph : Phase) (cs : List Argv)
      (h : Bytes)
      → f.size ≡ 0
      → IsAccepting s
      → (h ++ t) ++ flatten ts ≡ stream ph cs
      → AllFit (pending ph cs)
      → Delivers f (f.log.dealt ++ pending ph cs) (feed string2l (parser_at f s ph h []) (t ∷ ts))
  feed_pieces [] t f s ph cs h z a e fit =
      feed_last f s ph cs h t z a (ap (λ y. (h ++ t) ++ y) (sym flatten-nil) ∙ e) fit
  feed_pieces (t' ∷ ts) t f s ph cs h z a e fit =
      let x = process_input_buffer-Ends string2l law f s ph cs h t (flatten (t' ∷ ts)) z a e fit in
      let y =
        feed_pieces ts t' x.frame x.status x.phase x.rest x.aside (x.sized ∙ z)
          (accepts x.status (elim x.finished [ inl (d, _, _) ↦ inl d | inr (d, _) ↦ inr d ]))
          (append_assoc x.aside t' (flatten ts)
            ∙ ap (λ w. x.aside ++ w) (sym (flatten-cons t' ts))
            ∙ x.stands)
          x.fits in
      record {
        log = y.log;
        result = feed-cons _ _ t (t' ∷ ts) x.result ∙ y.result;
        dealt = y.dealt ∙ x.delivered;
        completed = λ g. y.completed (x.agrees g) ∙ ap (map lower_name) x.delivered;
      }

-- If `string2l` reads decimal texts, a stream of serialized commands that reaches the parser in any
-- pieces is delivered whole: no call fails, `DealMessage` gets the commands, each once and in order,
-- the calls of `Complete` get the same commands with the first word of each in lower case, and the
-- parser rests between commands with nothing put aside. Each command has a word, and its counts and
-- lengths are below 2^63.
pub feed-wire :
    (string2l : StringToLong) (cs : List Argv) (t : Bytes) (ts : List Bytes)
    → ReadsDecimals string2l
    → AllFit cs
    → flatten (t ∷ ts) ≡ wire cs
    → (log : Log) × (feed string2l initial (t ∷ ts) ≡ ok (idle log))
      × (log.dealt ≡ cs)
      × (flatten log.completed ≡ map lower_name cs)
unfolding redis_parser_init
feed-wire string2l cs t ts law fit e =
    let f : Frame = record { argvs = []; log = nothing_yet; size = 0 } in
    let x =
      feed_pieces string2l law ts t f init_done boundary cs [] refl tt (sym (flatten-cons t ts) ∙ e)
        fit in
    (x.log, x.result, x.dealt, x.completed (nothing-Agrees f refl refl refl))
