-- ===== src/Redis/Stream/Pipeline.antt =====
-- The loop over the commands, and calls of `ProcessInputBuffer`, on a stream cut anywhere.
use mathlib.Core.List.{flatten, map-append}
use pink.Base.{
  Bool, ℕ, zero, suc, ◌^◌, ◌<◌, ◌≡◌, refl, sym, ap, ◌≢◌, ◌⊎◌, ◌∙◌, inl, inr, List, [], ◌∷◌, ◌++◌,
  true, false, length, append_assoc, append-nil, arith, map,
}
use pink.Redis.Chars.{Bytes, Argv}
use pink.Redis.State.{
  Run, ok, ParserStatus, parser_none, init_done, error, half, done, Parser, ◌>>=◌,
}
use pink.Redis.Parser.{
  StringToLong, lower_name, complete_all, deal_command, after_command, request_round, request_loop,
  process_multibulk_buffer, process_request_buffer, process_input_buffer,
}
use pink.Redis.Stream.Lines.{ReadsDecimals, line}
use pink.Redis.Stream.Phase.{
  Log, Phase, boundary, header, bulk_line, bulk_body, wire, stream, pending, Frame, parser_at,
  parser_full, FitsLong,
}
use pink.Redis.Stream.Bulks.{Outcome}
use pink.Redis.Stream.Command.{
  redis_format_command_argv-line, from_header, from_bulk_line, from_bulk_body,
}

-- A command that the protocol can carry: it has a first word, and its counts fit in a `long`.
pub record Fits (c : Argv) : Type 0 where
  pub ne_nil : c ≢ []
  pub count : length c < 2 ^ 63
  pub words : FitsLong c

abbrev pub AllFit : List Argv → Type 0
AllFit [] = Unit {0}
AllFit (c ∷ cs) = Fits c × AllFit cs

-- What `Complete` has been given, and what it will be given next.
abbrev pub settled : Frame → List Argv
settled f = flatten f.log.completed ++ map lower_name f.argvs

-- `Complete` gets the commands of `DealMessage`, in lower case.
abbrev pub Agrees : Frame → Type 0
Agrees f = settled f ≡ map lower_name f.log.dealt

abbrev dealt_one : Frame → Argv → Frame
dealt_one f c = record {
  argvs = f.argvs ++ c ∷ [];
  log = record { dealt = f.log.dealt ++ c ∷ []; completed = f.log.completed };
  size = f.size;
}

abbrev completed_all : Frame → Frame
completed_all f = record {
  argvs = [];
  log = record { dealt = f.log.dealt; completed = f.log.completed ++ map lower_name f.argvs ∷ [] };
  size = f.size;
}

flatten_concat :
    (xss : List (List Argv)) (xs : List Argv) → flatten (xss ++ xs ∷ []) ≡ flatten xss ++ xs
unfolding flatten
flatten_concat [] xs = append-nil xs
flatten_concat (ys ∷ xss) xs = simp (flatten_concat xss xs, append_assoc)

dealt_one-Agrees : (f : Frame) (c : Argv) → Agrees f → Agrees (dealt_one f c)
dealt_one-Agrees f c h =
    rw
      (
        map-append lower_name f.argvs (c ∷ []),
        map-append lower_name f.log.dealt (c ∷ []),
        ← append_assoc (flatten f.log.completed) (map lower_name f.argvs) (lower_name c ∷ []),
      )
      (ap (λ x. x ++ lower_name c ∷ []) h)

completed_all-Agrees : (f : Frame) → Agrees f → Agrees (completed_all f)
completed_all-Agrees f h =
    append-nil (flatten (f.log.completed ++ map lower_name f.argvs ∷ []))
    ∙ flatten_concat f.log.completed (map lower_name f.argvs)
    ∙ h

after_command-full :
    (f : Frame) (c : Argv) (h t : Bytes)
    → c ≢ []
    → after_command (parser_full f done c h t)
      ≡ (true, parser_at (dealt_one f c) done boundary [] t)
unfolding after_command deal_command
after_command-full f [] h t ne = absurd (ne refl)
after_command-full f (a ∷ args) h t ne = refl

after_command-half :
    (f : Frame) (ph : Phase) (h t : Bytes)
    → after_command (parser_at f half ph h t) ≡ (false, parser_at f half ph h t)
unfolding after_command
after_command-half f ph h t = refl

complete_all-recording :
    (f : Frame) (s : ParserStatus) (ph : Phase) (h : Bytes)
    → complete_all (parser_at f s ph h []) ≡ parser_at (completed_all f) done ph h []
unfolding complete_all
complete_all-recording f s ph h = refl

FitsLong-append : (xs ys : Argv) → FitsLong (xs ++ ys) → FitsLong ys
FitsLong-append [] ys h = h
FitsLong-append (x ∷ xs) ys h = FitsLong-append xs ys h.1

-- A status in which the parser takes input.
abbrev pub IsAccepting : ParserStatus → Type 0
IsAccepting parser_none = ⊥
IsAccepting error = ⊥
IsAccepting _ = Unit {0}

abbrev IsInside : Phase → Type 0
IsInside boundary = ⊥
IsInside _ = Unit {0}

module _ (string2l : StringToLong) (law : ReadsDecimals string2l) where
  request_round-inside :
      (f : Frame) (s : ParserStatus) (ph : Phase) (h t : Bytes)
      → IsInside ph
      → request_round string2l (parser_at f s ph h t)
        ≡ (process_multibulk_buffer string2l (parser_at f s ph h t) >>= λ r. ok (after_command r))
  unfolding request_round
  request_round-inside f s boundary h t i = absurd i
  request_round-inside f s _ h t i = refl

  request_round-boundary :
      (f : Frame) (s : ParserStatus) (c : Argv) (h t : Bytes)
      → request_round string2l (parser_at f s boundary h (b'*' ∷ t))
        ≡ request_round string2l (parser_at f s (header c) h (b'*' ∷ t))
  unfolding request_round
  request_round-boundary f s c h t = refl

  -- Where the loop over the commands stops on what has arrived.
  pub record Ends (f : Frame) (ph : Phase) (cs : List Argv) (u : Bytes) (r : Run (Parser Log))
      : Type 0 where
    pub frame : Frame
    pub sized : frame.size ≡ f.size
    pub status : ParserStatus
    pub phase : Phase
    pub rest : List Argv
    pub aside : Bytes
    pub result : r ≡ ok (parser_at frame status phase aside [])
    pub stands : aside ++ u ≡ stream phase rest
    pub delivered : frame.log.dealt ++ pending phase rest ≡ f.log.dealt ++ pending ph cs
    pub fits : AllFit (pending phase rest)
    pub agrees : Agrees f → Agrees frame
    pub finished :
        ((status ≡ done) × (aside ≡ []) × (frame.argvs ≡ [])) ⊎ ((status ≡ half) × (u ≢ []))

  inside-Outcome :
      (f : Frame) (s : ParserStatus) (ph : Phase) (cs : List Argv) (h t u : Bytes)
      → IsInside ph
      → t ++ u ≡ stream ph cs
      → AllFit (pending ph cs)
      → (c : Argv) × (Fits c)
        × (pending ph cs ≡ c ∷ cs)
        × (AllFit cs)
        × Outcome f c cs u h (length t) (process_multibulk_buffer string2l (parser_at f s ph h t))
  inside-Outcome f s boundary cs h t u i e fit = absurd i
  inside-Outcome f s (header []) cs h t u i e fit = absurd (fit.0.ne_nil refl)
  inside-Outcome f s (header (a ∷ args)) cs h t u i e fit = (
    a ∷ args,
    fit.0,
    refl,
    fit.1,
    from_header string2l law f s a args cs h t u (length t) (omega arith) fit.0.count fit.0.words e,
  )
  inside-Outcome f s (bulk_line argv a args) cs h t u i e fit = (
    argv ++ a ∷ args,
    fit.0,
    refl,
    fit.1,
    from_bulk_line string2l law f s argv a args cs h t u
        (FitsLong-append argv (a ∷ args) fit.0.words) e,
  )
  inside-Outcome f s (bulk_body argv a args) cs h t u i e fit = (
    argv ++ a ∷ args,
    fit.0,
    refl,
    fit.1,
    from_bulk_body string2l law f s argv a args cs h t u
        (FitsLong-append argv (a ∷ args) fit.0.words).1 e,
  )

  abbrev go_on : ℕ → Run (Bool × Parser Log) → Run (Parser Log)
  go_on fuel r = r >>= λ (go, q). elim go [ true ↦ request_loop string2l fuel q | false ↦ ok q ]

  request_loop-cons :
      (fuel : ℕ) (f : Frame) (s : ParserStatus) (ph : Phase) (h : Bytes) (x : ℕ) (t : Bytes)
      → request_loop string2l (suc fuel) (parser_at f s ph h (x ∷ t))
        ≡ go_on fuel (request_round string2l (parser_at f s ph h (x ∷ t)))
  unfolding request_loop
  request_loop-cons fuel f s ph h x t = refl

  request_loop-nil :
      (fuel : ℕ) (f : Frame) (s : ParserStatus) (ph : Phase) (h : Bytes)
      → request_loop string2l (suc fuel) (parser_at f s ph h [])
        ≡ ok (complete_all (parser_at f s ph h []))
  unfolding request_loop
  request_loop-nil fuel f s ph h = refl

  -- One round inside a command.
  round_Ends :
      (fuel : ℕ) (f : Frame) (s : ParserStatus) (ph : Phase) (cs : List Argv) (h : Bytes) (x : ℕ)
      (t u : Bytes)
      → IsInside ph
      → (x ∷ t) ++ u ≡ stream ph cs
      → AllFit (pending ph cs)
      → ((f' : Frame) (t' : Bytes)
          → length t' < length (x ∷ t)
          → t' ++ u ≡ wire cs
          → AllFit cs
          → Ends f' boundary cs u (request_loop string2l fuel (parser_at f' done boundary [] t')))
      → Ends f ph cs u (request_loop string2l (suc fuel) (parser_at f s ph h (x ∷ t)))
  round_Ends fuel f s ph cs h x t u i e fit later =
      let (c, fc, pend, fcs, outcome) = inside-Outcome f s ph cs h (x ∷ t) u i e fit in
      rw (request_loop-cons, request_round-inside f s ph h (x ∷ t) i)
        (elim outcome [
          | inr (ph', t', r, stands, pend', more) ↦
              rw (r, after_command-half)
                (record {
                  frame = f;
                  sized = refl;
                  status = half;
                  phase = ph';
                  rest = cs;
                  aside = t';
                  result = refl;
                  stands = stands;
                  delivered = ap (λ z. f.log.dealt ++ z) (pend' ∙ sym pend);
                  fits = rw pend' (fc, fcs);
                  agrees = λ a. a;
                  finished = inr (refl, more);
                })
          | inl (t', r, stands, lt) ↦
              rw (r, after_command-full f c h t' fc.ne_nil)
                (let after = later (dealt_one f c) t' lt stands fcs in
                  record {
                    frame = after.frame;
                    sized = after.sized;
                    status = after.status;
                    phase = after.phase;
                    rest = after.rest;
                    aside = after.aside;
                    result = after.result;
                    stands = after.stands;
                    delivered =
                        after.delivered
                        ∙ append_assoc f.log.dealt (c ∷ []) cs
                        ∙ ap (λ z. f.log.dealt ++ z) (sym pend);
                    fits = after.fits;
                    agrees = λ a. after.agrees (dealt_one-Agrees f c a);
                    finished = after.finished;
                  })
        ])

  Ends-boundary :
      (f : Frame) (c : Argv) (cs : List Argv) (u : Bytes) (r : Run (Parser Log))
      → Ends f (header c) cs u r
      → Ends f boundary (c ∷ cs) u r
  Ends-boundary f c cs u r x = record {
    frame = x.frame;
    sized = x.sized;
    status = x.status;
    phase = x.phase;
    rest = x.rest;
    aside = x.aside;
    result = x.result;
    stands = x.stands;
    delivered = x.delivered;
    fits = x.fits;
    agrees = x.agrees;
    finished = x.finished;
  }

  first_byte : (c : Argv) (x : ℕ) (t w : Bytes) → x ∷ t ≡ line b'*' (length c) w → x ≡ b'*'
  first_byte c x t w e = cc

  request_loop-boundary :
      (fuel : ℕ) (f : Frame) (s : ParserStatus) (c : Argv) (h : Bytes) (x : ℕ) (t : Bytes)
      → x ≡ b'*'
      → request_loop string2l (suc fuel) (parser_at f s boundary h (x ∷ t))
        ≡ request_loop string2l (suc fuel) (parser_at f s (header c) h (x ∷ t))
  request_loop-boundary fuel f s c h x t star = rw star (
      request_loop-cons fuel f s boundary h b'*' t
      ∙ ap (go_on fuel) (request_round-boundary f s c h t)
      ∙ sym (request_loop-cons fuel f s (header c) h b'*' t))

  request_loop-Ends :
      (fuel : ℕ) (f : Frame) (s : ParserStatus) (ph : Phase) (cs : List Argv) (h t u : Bytes)
      → length t < fuel
      → (t ≡ [] → h ≡ [])
      → t ++ u ≡ stream ph cs
      → AllFit (pending ph cs)
      → Ends f ph cs u (request_loop string2l fuel (parser_at f s ph h t))
  request_loop-Ends zero f s ph cs h t u enough nothing e fit = absurd (omega arith)
  request_loop-Ends (suc fuel) f s ph cs h [] u enough nothing e fit =
      rw (request_loop-nil, complete_all-recording)
        (record {
          frame = completed_all f;
          sized = refl;
          status = done;
          phase = ph;
          rest = cs;
          aside = h;
          result = refl;
          stands = rw (nothing refl) e;
          delivered = refl;
          fits = fit;
          agrees = completed_all-Agrees f;
          finished = inl (refl, nothing refl, refl);
        })
  request_loop-Ends (suc fuel) f s boundary [] h (x ∷ t) u enough nothing e fit = cc
  request_loop-Ends (suc fuel) f s boundary (c ∷ cs) h (x ∷ t) u enough nothing e fit =
      let star : x ≡ b'*' = first_byte c x _ _ (e ∙ redis_format_command_argv-line c (wire cs)) in
      rw (request_loop-boundary fuel f s c h x t star) (
        Ends-boundary f c cs u _ (
          round_Ends fuel f s (header c) cs h x t u tt e fit (λ f' t' lt r fcs.
            request_loop-Ends fuel f' done boundary cs [] t' u (omega arith) (λ z. refl) r fcs)))
  request_loop-Ends (suc fuel) f s ph cs h (x ∷ t) u enough nothing e fit =
      round_Ends fuel f s ph cs h x t u tt e fit (λ f' t' lt r fcs.
        request_loop-Ends fuel f' done boundary cs [] t' u (omega arith) (λ z. refl) r fcs)

  abbrev rested : Frame → Frame
  rested f = record { argvs = f.argvs; log = f.log; size = 0 }

  abbrev loaded : Frame → ℕ → Frame
  loaded f n = record { argvs = f.argvs; log = f.log; size = n }

  process-request_loop :
      (f : Frame) (s : ParserStatus) (ph : Phase) (h t : Bytes)
      → IsAccepting s
      → process_input_buffer string2l (parser_at f s ph h []) t ≡ (
          request_loop string2l
            (suc (length (h ++ t)))
            (parser_at (loaded f (length (h ++ t))) s ph h (h ++ t))
          >>= λ r. ok (record r { input = []; length_ = 0 }))
  unfolding process_input_buffer process_request_buffer
  process-request_loop f init_done ph h t a = refl
  process-request_loop f half ph h t a = refl
  process-request_loop f done ph h t a = refl
  process-request_loop f parser_none ph h t a = absurd a
  process-request_loop f error ph h t a = absurd a

  nil_of_append : (xs ys : Bytes) → xs ++ ys ≡ [] → xs ≡ []
  nil_of_append [] ys e = refl
  nil_of_append (x ∷ xs) ys e = cc

  pub process_input_buffer-Ends :
      (f : Frame) (s : ParserStatus) (ph : Phase) (cs : List Argv) (h t u : Bytes)
      → f.size ≡ 0
      → IsAccepting s
      → (h ++ t) ++ u ≡ stream ph cs
      → AllFit (pending ph cs)
      → Ends f ph cs u (process_input_buffer string2l (parser_at f s ph h []) t)
  process_input_buffer-Ends f s ph cs h t u none_read a e fit =
      let x =
        request_loop-Ends (suc (length (h ++ t))) (loaded f (length (h ++ t))) s ph cs h (h ++ t) u
          (omega arith) (nil_of_append h t) e fit in
      rw (process-request_loop f s ph h t a, x.result)
        (record {
          frame = rested x.frame;
          sized = sym none_read;
          status = x.status;
          phase = x.phase;
          rest = x.rest;
          aside = x.aside;
          result = refl;
          stands = x.stands;
          delivered = x.delivered;
          fits = x.fits;
          agrees = x.agrees;
          finished = x.finished;
        })
