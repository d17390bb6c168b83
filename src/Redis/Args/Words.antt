-- ===== src/Redis/Args/Words.antt =====
-- The words of an inline command.
use pink.Base.{
  ℕ, ◌≡◌, ◌≢◌, refl, ◌∙◌, ◌⊎◌, inl, inr, List, [], ◌∷◌, ◌++◌, some, append_assoc, append-nil, arith,
  false,
}
use pink.Redis.Chars.{Bytes, Argv, isspace}
use pink.Redis.Args.{blank, bare, scan, round, in_bare, split2args}

-- No byte that separates or quotes.
abbrev pub IsPlain : ℕ → Type 0
IsPlain c = (isspace c ≡ false) × (c ≢ 0) × (c ≢ b'"') × (c ≢ b'\'')

abbrev pub AllPlain : Bytes → Type 0
AllPlain [] = Unit {0}
AllPlain (c ∷ cs) = IsPlain c × AllPlain cs

abbrev pub IsWord : Bytes → Type 0
IsWord w = (w ≢ []) × AllPlain w

abbrev pub AllWords : List Bytes → Type 0
AllWords [] = Unit {0}
AllWords (w ∷ ws) = IsWord w × AllWords ws

scan-plain :
    (w arg : Bytes) (argv : Argv) (rest : Bytes)
    → AllPlain w
    → scan bare arg argv 0 (w ++ rest) ≡ scan bare (arg ++ w) argv 0 rest
unfolding scan round in_bare
scan-plain [] arg argv rest h = rw append-nil
scan-plain (c ∷ cs) arg argv rest h =
    ground (arith, scan-plain cs (arg ++ c ∷ []) argv rest h.1, append_assoc arg (c ∷ []) cs)

-- A byte that ends a word.
abbrev IsGap : ℕ → Type 0
IsGap c = (c ≡ 32) ⊎ (c ≡ 13)

scan-gap :
    (c : ℕ) (arg : Bytes) (argv : Argv) (rest : Bytes)
    → IsGap c
    → scan bare arg argv 0 (c ∷ rest) ≡ scan blank [] (argv ++ arg ∷ []) 0 rest
unfolding scan round in_bare
scan-gap c arg argv rest h = ground arith

scan_start :
    (c : ℕ) (argv : Argv) (rest : Bytes)
    → IsPlain c
    → scan blank [] argv 0 (c ∷ rest) ≡ scan bare (c ∷ []) argv 0 rest
unfolding scan round in_bare
scan_start c argv rest h = ground arith

scan-lf :
    (argv : Argv) (rest : Bytes) → scan blank [] argv 0 (10 ∷ rest) ≡ scan blank [] argv 0 rest
unfolding scan round
scan-lf argv rest = refl

scan-cr :
    (argv : Argv) (rest : Bytes) → scan blank [] argv 0 (13 ∷ rest) ≡ scan blank [] argv 0 rest
unfolding scan round
scan-cr argv rest = refl

scan-word :
    (w : Bytes) (c : ℕ) (argv : Argv) (rest : Bytes)
    → IsWord w
    → IsGap c
    → scan blank [] argv 0 (w ++ c ∷ rest) ≡ scan blank [] (argv ++ w ∷ []) 0 rest
scan-word [] c argv rest h g = absurd (h.0 refl)
scan-word (x ∷ w) c argv rest h g =
    scan_start x argv (w ++ c ∷ rest) h.1.0
    ∙ scan-plain w (x ∷ []) argv (c ∷ rest) h.1.1
    ∙ scan-gap c (x ∷ w) argv rest g

-- A line of words with one space between them, and what follows it.
abbrev pub spell : List Bytes → Bytes → Bytes
spell [] rest = 13 ∷ 10 ∷ rest
spell (w ∷ []) rest = w ++ 13 ∷ 10 ∷ rest
spell (w ∷ v ∷ ws) rest = w ++ 32 ∷ spell (v ∷ ws) rest

scan-spell :
    (ws : List Bytes) (argv : Argv) (rest : Bytes)
    → AllWords ws
    → scan blank [] argv 0 (spell ws rest) ≡ scan blank [] (argv ++ ws) 0 rest
scan-spell [] argv rest h = scan-cr argv (10 ∷ rest) ∙ scan-lf argv rest ∙ rw append-nil
scan-spell (w ∷ []) argv rest h =
    scan-word w 13 argv (10 ∷ rest) h.0 (inr refl) ∙ scan-lf (argv ++ w ∷ []) rest
scan-spell (w ∷ v ∷ ws) argv rest h =
    scan-word w 32 argv (spell (v ∷ ws) rest) h.0 (inl refl)
    ∙ scan-spell (v ∷ ws) (argv ++ w ∷ []) rest h.1
    ∙ rw append_assoc

scan-nil : (argv : Argv) → scan blank [] argv 0 [] ≡ some argv
unfolding scan
scan-nil argv = refl

-- Lines of words.
abbrev pub spell_lines : List (List Bytes) → Bytes
spell_lines [] = []
spell_lines (ws ∷ wss) = spell ws (spell_lines wss)

abbrev pub AllLines : List (List Bytes) → Type 0
AllLines [] = Unit {0}
AllLines (ws ∷ wss) = AllWords ws × AllLines wss

abbrev pub words_of : List (List Bytes) → List Bytes
words_of [] = []
words_of (ws ∷ wss) = ws ++ words_of wss

scan-spell_lines :
    (wss : List (List Bytes)) (argv : Argv)
    → AllLines wss
    → scan blank [] argv 0 (spell_lines wss) ≡ some (argv ++ words_of wss)
scan-spell_lines [] argv h = scan-nil argv ∙ rw append-nil
scan-spell_lines (ws ∷ wss) argv h =
    scan-spell ws argv (spell_lines wss) h.0
    ∙ scan-spell_lines wss (argv ++ ws) h.1
    ∙ rw append_assoc

-- `split2args` reads the words of every line in the buffer.
pub split2args-spell_lines :
    (wss : List (List Bytes)) → AllLines wss → split2args (spell_lines wss) [] ≡ some (words_of wss)
unfolding split2args
split2args-spell_lines wss h = scan-spell_lines wss [] h
