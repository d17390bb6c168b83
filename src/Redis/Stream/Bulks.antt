-- ===== src/Redis/Stream/Bulks.antt =====
-- The loop over the bulks of a command, on a stream cut anywhere.
use pink.Base.{
  Bool, ℕ, zero, suc, ◌+◌, ◌^◌, ◌≤◌, ◌<◌, ◌≡◌, refl, sym, ap, ◌≢◌, ◌⊎◌, ◌∙◌, inl, inr, List, [],
  ◌∷◌, ◌++◌, true, false, length, length-append, append_assoc, arith, if◌then◌else◌, dec_lt,
}
use pink.Redis.Chars.{Bytes, Argv}
use pink.Redis.State.{Run, ok, ParserStatus, half, done, Parser, ◌>>=◌}
use pink.Redis.Parser.{StringToLong, bulk_header, take_bulk, bulk_round, bulk_loop}
use pink.Redis.Serialize.{to_string, bulks}
use pink.Redis.Serialize.Decimal.{NoLf}
use pink.Redis.Stream.Lines.{
  line, body, ReadsDecimals, find_next_separators-NoLf, find_next_separators-line, drop-line,
  get_next_num-line, cut_line, cut_body, take-body, drop-body, length-body, more_to_come,
}
use pink.Redis.Stream.Phase.{
  Log, Phase, bulk_line, bulk_body, wire, stream, pending, Frame, parser_at, parser_full, FitsLong,
}

-- The state behind a bulk: at the next line, or at the end of the command.
abbrev pub next_state : Frame → ParserStatus → Argv → Argv → Bytes → Bytes → Parser Log
next_state f s argv [] h t = parser_full f s argv h t
next_state f s argv (b ∷ bs) h t = parser_at f s (bulk_line argv b bs) h t

-- How the loop over the bulks of the command `all` ends: it has read the command, or it has put
-- the unread bytes aside in a phase of the same stream, and more is to come.
abbrev pub Outcome : Frame → Argv → List Argv → Bytes → Bytes → ℕ → Run (Parser Log) → Type 0
Outcome f all cs u h limit r =
    ((t' : Bytes) × (r ≡ ok (parser_full f done all h t'))
      × (t' ++ u ≡ wire cs)
      × (length t' < limit))
    ⊎ ((ph : Phase) × (t' : Bytes) × (r ≡ ok (parser_at f half ph t' []))
        × (t' ++ u ≡ stream ph cs)
        × (pending ph cs ≡ all ∷ cs)
        × (u ≢ []))

abbrev pub continue : StringToLong → ℕ → Run (Bool × Parser Log) → Run (Parser Log)
continue string2l fuel r =
    r >>= λ (go, q). elim go [ true ↦ bulk_loop string2l fuel q | false ↦ ok q ]

pub bulks-cons :
    (b : Bytes) (bs : Argv) (w : Bytes)
    → bulks (b ∷ bs) ++ w ≡ line b'$' (length b) (body b (bulks bs ++ w))
unfolding bulks
bulks-cons b bs w = simp append_assoc

module _ (string2l : StringToLong) (law : ReadsDecimals string2l) where
  bulk_header-line :
      (f : Frame) (s : ParserStatus) (argv : Argv) (a : Bytes) (args : Argv) (h rest : Bytes)
      (c : ℕ)
      → length a < 2 ^ 63
      → bulk_header string2l
          (parser_at f s (bulk_line argv a args) h (line b'$' (length a) (c ∷ rest)))
        ≡ ok (true, parser_at f s (bulk_body argv a args) h (c ∷ rest))
  unfolding bulk_header
  bulk_header-line f s argv a args h rest c fits = ground (
    arith,
    find_next_separators-line b'$' (length a) (c ∷ rest) (omega arith),
    get_next_num-line string2l b'$' (length a) (c ∷ rest) law fits,
    drop-line b'$' (length a) (c ∷ rest),
  )

  bulk_header-end :
      (f : Frame) (s : ParserStatus) (argv : Argv) (a : Bytes) (args : Argv) (h : Bytes)
      → length a < 2 ^ 63
      → bulk_header string2l (parser_at f s (bulk_line argv a args) h (line b'$' (length a) []))
        ≡ ok (false, parser_at f half (bulk_body argv a args) [] [])
  unfolding bulk_header
  bulk_header-end f s argv a args h fits = ground (
    arith,
    find_next_separators-line b'$' (length a) [] (omega arith),
    get_next_num-line string2l b'$' (length a) [] law fits,
    drop-line b'$' (length a) [],
  )

  bulk_header-NoLf :
      (f : Frame) (s : ParserStatus) (argv : Argv) (a : Bytes) (args : Argv) (h t : Bytes)
      → NoLf t
      → bulk_header string2l (parser_at f s (bulk_line argv a args) h t)
        ≡ ok (false, parser_at f half (bulk_line argv a args) t [])
  unfolding bulk_header
  bulk_header-NoLf f s argv a args h t n = ground (arith, find_next_separators-NoLf t n)

  take_bulk-short :
      (f : Frame) (s : ParserStatus) (argv : Argv) (a : Bytes) (args : Argv) (h t : Bytes)
      → length t < length a + 2
      → take_bulk string2l (parser_at f s (bulk_body argv a args) h t)
        ≡ ok (false, parser_at f half (bulk_body argv a args) t [])
  unfolding take_bulk
  take_bulk-short f s argv a args h t short = ground arith

  take_bulk-body :
      (f : Frame) (s : ParserStatus) (argv : Argv) (a : Bytes) (args : Argv) (h t : Bytes)
      → take_bulk string2l (parser_at f s (bulk_body argv a args) h (body a t))
        ≡ ok (true, next_state f s (argv ++ a ∷ []) args h t)
  unfolding take_bulk
  take_bulk-body f s argv a [] h t = ground (arith, take-body a t, drop-body a t, length-body a t)
  take_bulk-body f s argv a (b ∷ bs) h t =
      ground (arith, take-body a t, drop-body a t, length-body a t)

  pub body_step :
      (f : Frame) (s : ParserStatus) (argv : Argv) (a : Bytes) (args all : Argv) (cs : List Argv)
      (h t u : Bytes) (fuel limit : ℕ)
      → all ≡ argv ++ a ∷ args
      → t ++ u ≡ stream (bulk_body argv a args) cs
      → ((t' : Bytes)
          → length t' < length t
          → t' ++ u ≡ bulks args ++ wire cs
          → Outcome f all cs u h limit
              (bulk_loop string2l fuel (next_state f s (argv ++ a ∷ []) args h t')))
      → Outcome f all cs u h limit
          (continue string2l fuel (take_bulk string2l (parser_at f s (bulk_body argv a args) h t)))
  body_step f s argv a args all cs h t u fuel limit whole e later =
      elim (dec_lt (length t) (length a + 2)) [
        | yes short ↦ rw (take_bulk-short f s argv a args h t short) (
            inr (
              bulk_body argv a args,
              t,
              refl,
              e,
              ap (λ x. x ∷ cs) (sym whole),
              more_to_come a t u _ short e,
            ))
        | no long ↦
            let (t', e', r) = cut_body a t u _ (omega arith) e in
            let shorter : length t' < length t = omega (arith, ap length e', length-body a t') in
            rw (e', take_bulk-body f s argv a args h t') (later t' shorter r)
      ]

  pub bulk_loop-full :
      (fuel : ℕ) (f : Frame) (s : ParserStatus) (argv : Argv) (h t : Bytes)
      → 0 < fuel
      → bulk_loop string2l fuel (parser_full f s argv h t) ≡ ok (parser_full f done argv h t)
  unfolding bulk_loop bulk_round
  bulk_loop-full zero f s argv h t fueled = absurd (omega arith)
  bulk_loop-full (suc fuel) f s argv h t fueled = refl

  bulk_round-line :
      (f : Frame) (s : ParserStatus) (argv : Argv) (a : Bytes) (args : Argv) (h t : Bytes)
      → bulk_round string2l (parser_at f s (bulk_line argv a args) h t) ≡ (
          bulk_header string2l (parser_at f s (bulk_line argv a args) h t) >>= λ (go, q).
          (if go then take_bulk string2l q else ok (false, q)))
  unfolding bulk_round
  bulk_round-line f s argv a args h t = ground arith

  bulk_loop-suc :
      (fuel : ℕ) (p : Parser Log)
      → bulk_loop string2l (suc fuel) p ≡ continue string2l fuel (bulk_round string2l p)
  unfolding bulk_loop
  bulk_loop-suc fuel p = refl

  line_step :
      (argv : Argv) (a : Bytes) (args : Argv) (f : Frame) (s : ParserStatus) (all : Argv)
      (cs : List Argv) (h t u : Bytes) (fuel limit : ℕ)
      → length a < 2 ^ 63
      → all ≡ argv ++ a ∷ args
      → t ++ u ≡ stream (bulk_line argv a args) cs
      → ((t' : Bytes)
          → length t' < length t
          → t' ++ u ≡ bulks args ++ wire cs
          → Outcome f all cs u h limit
              (bulk_loop string2l fuel (next_state f s (argv ++ a ∷ []) args h t')))
      → Outcome f all cs u h limit
          (bulk_loop string2l (suc fuel) (parser_at f s (bulk_line argv a args) h t))
  line_step argv a args f s all cs h t u fuel limit fits whole e later =
      rw (bulk_loop-suc, bulk_round-line)
        (elim (cut_line b'$' (length a) t u _ (omega arith) e) [
          | inr (n, more) ↦
              rw (bulk_header-NoLf f s argv a args h t n)
                (inr (bulk_line argv a args, t, refl, e, ap (λ x. x ∷ cs) (sym whole), more))
          | inl ([], e', r) ↦
              rw (e', bulk_header-end f s argv a args h fits)
                (inr (
                  bulk_body argv a args,
                  [],
                  refl,
                  r,
                  ap (λ x. x ∷ cs) (sym whole),
                  more_to_come a [] u _ (omega arith) r,
                ))
          | inl (c ∷ t', e', r) ↦
              let shorter : length (c ∷ t') < length t =
                omega
                  (arith, ap length e', length-append (to_string (length a)) (13 ∷ 10 ∷ c ∷ t')) in
              rw (e', bulk_header-line f s argv a args h t' c fits)
                (body_step f s argv a args all cs h (c ∷ t') u fuel limit whole r
                  (λ t'' lt r'. later t'' (omega arith) r'))
        ])

  pub line_loop :
      (args argv : Argv) (a : Bytes) (f : Frame) (s : ParserStatus) (all : Argv) (cs : List Argv)
      (h t u : Bytes) (fuel limit : ℕ)
      → length t < fuel
      → length t ≤ limit
      → FitsLong (a ∷ args)
      → all ≡ argv ++ a ∷ args
      → t ++ u ≡ stream (bulk_line argv a args) cs
      → Outcome f all cs u h limit
          (bulk_loop string2l fuel (parser_at f s (bulk_line argv a args) h t))
  unfolding bulks
  line_loop args argv a f s all cs h t u zero limit enough le fits whole e = absurd (omega arith)
  line_loop [] argv a f s all cs h t u (suc fuel) limit enough le fits whole e =
      line_step argv a [] f s all cs h t u fuel limit fits.0 whole e (λ t' lt r.
        rw (bulk_loop-full fuel f s (argv ++ a ∷ []) h t' (omega arith))
          (inl (t', rw whole, r, omega arith)))
  line_loop (b ∷ bs) argv a f s all cs h t u (suc fuel) limit enough le fits whole e =
      line_step argv a (b ∷ bs) f s all cs h t u fuel limit fits.0 whole e (λ t' lt r.
        line_loop bs (argv ++ a ∷ []) b f s all cs h t' u fuel limit (omega arith) (omega arith)
          fits.1 (whole ∙ sym (append_assoc argv (a ∷ []) (b ∷ bs)))
          (r ∙ bulks-cons b bs (wire cs)))
