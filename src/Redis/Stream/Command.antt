-- ===== src/Redis/Stream/Command.antt =====
-- One call of `ProcessMultibulkBuffer` on a stream cut anywhere, from any phase inside a command.
use pink.Base.{
  ℕ, suc, ◌^◌, ◌≤◌, ◌<◌, ◌≡◌, refl, sym, ap, ◌∙◌, inl, inr, List, [], ◌∷◌, ◌++◌, true, false,
  length, length-append, append_assoc, arith, if◌then◌else◌,
}
use pink.Redis.Chars.{Bytes, Argv}
use pink.Redis.State.{ok, ParserStatus, half, ◌>>=◌}
use pink.Redis.Parser.{
  StringToLong, multibulk_header, take_bulk, bulk_round, bulk_loop, process_multibulk_buffer,
}
use pink.Redis.Serialize.{to_string, bulks, redis_format_command_argv}
use pink.Redis.Serialize.Decimal.{NoLf}
use pink.Redis.Stream.Lines.{
  line, ReadsDecimals, find_next_separators-NoLf, find_next_separators-line, drop-line,
  get_next_num-line, cut_line,
}
use pink.Redis.Stream.Phase.{header, bulk_line, bulk_body, wire, stream, Frame, parser_at, FitsLong}
use pink.Redis.Stream.Bulks.{Outcome, continue, body_step, line_loop, bulk_loop-full, bulks-cons}

pub redis_format_command_argv-line :
    (c : Argv) (w : Bytes) → redis_format_command_argv c ++ w ≡ line b'*' (length c) (bulks c ++ w)
unfolding redis_format_command_argv
redis_format_command_argv-line c w = simp append_assoc

module _ (string2l : StringToLong) (law : ReadsDecimals string2l) where
  multibulk_header-NoLf :
      (f : Frame) (s : ParserStatus) (c : Argv) (h t : Bytes)
      → NoLf t
      → multibulk_header string2l (parser_at f s (header c) h t)
        ≡ ok (false, parser_at f half (header c) t [])
  unfolding multibulk_header
  multibulk_header-NoLf f s c h t n = ground (arith, find_next_separators-NoLf t n)

  multibulk_header-end :
      (f : Frame) (s : ParserStatus) (a : Bytes) (args : Argv) (h : Bytes)
      → suc (length args) < 2 ^ 63
      → multibulk_header string2l
          (parser_at f s (header (a ∷ args)) h (line b'*' (suc (length args)) []))
        ≡ ok (false, parser_at f half (bulk_line [] a args) [] [])
  unfolding multibulk_header
  multibulk_header-end f s a args h fits = ground (
    arith,
    find_next_separators-line b'*' (suc (length args)) [] (omega arith),
    get_next_num-line string2l b'*' (suc (length args)) [] law fits,
    drop-line b'*' (suc (length args)) [],
  )

  multibulk_header-line :
      (f : Frame) (s : ParserStatus) (a : Bytes) (args : Argv) (h rest : Bytes) (x : ℕ)
      → suc (length args) < 2 ^ 63
      → multibulk_header string2l
          (parser_at f s (header (a ∷ args)) h (line b'*' (suc (length args)) (x ∷ rest)))
        ≡ ok (true, parser_at f s (bulk_line [] a args) h (x ∷ rest))
  unfolding multibulk_header
  multibulk_header-line f s a args h rest x fits = ground (
    arith,
    find_next_separators-line b'*' (suc (length args)) (x ∷ rest) (omega arith),
    get_next_num-line string2l b'*' (suc (length args)) (x ∷ rest) law fits,
    drop-line b'*' (suc (length args)) (x ∷ rest),
  )

  process-header :
      (f : Frame) (s : ParserStatus) (c : Argv) (h t : Bytes)
      → process_multibulk_buffer string2l (parser_at f s (header c) h t) ≡ (
          multibulk_header string2l (parser_at f s (header c) h t) >>= λ (go, q).
          (if go then bulk_loop string2l (suc (length q.input)) q else ok q))
  unfolding process_multibulk_buffer
  process-header f s c h t = refl

  process-bulk_line :
      (f : Frame) (s : ParserStatus) (argv : Argv) (a : Bytes) (args : Argv) (h t : Bytes)
      → process_multibulk_buffer string2l (parser_at f s (bulk_line argv a args) h t)
        ≡ bulk_loop string2l (suc (length t)) (parser_at f s (bulk_line argv a args) h t)
  unfolding process_multibulk_buffer
  process-bulk_line f s argv a args h t = ground arith

  process-bulk_body :
      (f : Frame) (s : ParserStatus) (argv : Argv) (a : Bytes) (args : Argv) (h t : Bytes)
      → process_multibulk_buffer string2l (parser_at f s (bulk_body argv a args) h t)
        ≡ continue string2l
            (length t)
            (take_bulk string2l (parser_at f s (bulk_body argv a args) h t))
  unfolding process_multibulk_buffer bulk_loop bulk_round
  process-bulk_body f s argv a args h t = ground arith

  pub from_header :
      (f : Frame) (s : ParserStatus) (a : Bytes) (args : Argv) (cs : List Argv) (h t u : Bytes)
      (limit : ℕ)
      → length t ≤ limit
      → suc (length args) < 2 ^ 63
      → FitsLong (a ∷ args)
      → t ++ u ≡ stream (header (a ∷ args)) cs
      → Outcome f
          (a ∷ args)
          cs
          u
          h
          limit
          (process_multibulk_buffer string2l (parser_at f s (header (a ∷ args)) h t))
  from_header f s a args cs h t u limit le count fits e =
      let e' = e ∙ redis_format_command_argv-line (a ∷ args) (wire cs) in
      rw process-header (elim (cut_line b'*' (suc (length args)) t u _ (omega arith) e') [
        | inr (n, more) ↦
            rw (multibulk_header-NoLf f s (a ∷ args) h t n)
              (inr (header (a ∷ args), t, refl, e, refl, more))
        | inl ([], here, r) ↦
            rw (here, multibulk_header-end f s a args h count)
              (inr (
                bulk_line [] a args,
                [],
                refl,
                r ∙ bulks-cons a args (wire cs),
                refl,
                λ z. cc (bulks-cons a args (wire cs)),
              ))
        | inl (x ∷ t', here, r) ↦
            let shorter : length (x ∷ t') < length t = omega (
              arith,
              ap length here,
              length-append (to_string (suc (length args))) (13 ∷ 10 ∷ x ∷ t'),
            ) in
            rw (here, multibulk_header-line f s a args h t' x count)
              (line_loop string2l law args [] a f s (a ∷ args) cs h (x ∷ t') u
                (suc (length (x ∷ t'))) limit (omega arith) (omega arith) fits refl
                (r ∙ bulks-cons a args (wire cs)))
      ])

  pub from_bulk_line :
      (f : Frame) (s : ParserStatus) (argv : Argv) (a : Bytes) (args : Argv) (cs : List Argv)
      (h t u : Bytes)
      → FitsLong (a ∷ args)
      → t ++ u ≡ stream (bulk_line argv a args) cs
      → Outcome f
          (argv ++ a ∷ args)
          cs
          u
          h
          (length t)
          (process_multibulk_buffer string2l (parser_at f s (bulk_line argv a args) h t))
  from_bulk_line f s argv a args cs h t u fits e = rw process-bulk_line (
      line_loop string2l law args argv a f s _ cs h t u (suc (length t)) (length t) (omega arith)
        (omega arith) fits refl e)

  pub from_bulk_body :
      (f : Frame) (s : ParserStatus) (argv : Argv) (a : Bytes) (args : Argv) (cs : List Argv)
      (h t u : Bytes)
      → FitsLong args
      → t ++ u ≡ stream (bulk_body argv a args) cs
      → Outcome f
          (argv ++ a ∷ args)
          cs
          u
          h
          (length t)
          (process_multibulk_buffer string2l (parser_at f s (bulk_body argv a args) h t))
  unfolding bulks
  from_bulk_body f s argv a [] cs h t u fits e = rw process-bulk_body (
      body_step string2l law f s argv a [] _ cs h t u (length t) (length t) refl e (λ t' lt r.
        rw (bulk_loop-full string2l law (length t) f s (argv ++ a ∷ []) h t' (omega arith))
          (inl (t', refl, r, lt))))
  from_bulk_body f s argv a (b ∷ bs) cs h t u fits e = rw process-bulk_body (
      body_step string2l law f s argv a (b ∷ bs) _ cs h t u (length t) (length t) refl e (λ t' lt r.
        line_loop string2l law bs (argv ++ a ∷ []) b f s _ cs h t' u (length t) (length t) lt
          (omega arith) fits (sym (append_assoc argv (a ∷ []) (b ∷ bs)))
          (r ∙ bulks-cons b bs (wire cs))))
