-- ===== src/Redis/Parser/Fuel.antt =====
-- The rounds of the two loops of pink/src/redis_parser.cc, and the bytes that they read.
use native.Mathlib.Nat.{le_trans}
use pink.Base.{
  Bool, ℕ, zero, suc, ◌+◌, ◌≤◌, ◌<◌, ◌≡◌, refl, ◌≢◌, ◌⊎◌, inl, inr, [], ◌∷◌, true, false, some,
  length, length-drop, arith, ℤ, pos, negsuc, eqb_ℤ, if◌then◌else◌, Option-cases, Bool-cases,
}
use pink.Redis.Chars.{Bytes}
use pink.Redis.State.{
  Run, ok, length_error, assert_failed, out_of_fuel, ◌>>=◌, done, Parser, parser_ok,
}
use pink.Redis.Parser.{
  StringToLong, set_parser_status, find_next_separators, get_next_num, bulk_header, take_bulk,
  bulk_round, bulk_loop,
}

pub find_next_separators-lt :
    (xs : Bytes) (k : ℕ) → find_next_separators xs ≡ some k → k < length xs
unfolding find_next_separators
find_next_separators-lt [] k e = cc
find_next_separators-lt (x ∷ xs) zero e = omega arith
find_next_separators-lt (x ∷ xs) (suc k) e = ground (arith, find_next_separators-lt xs k)

ℤ-cases : (z : ℤ) → ((n : ℕ) × (z ≡ pos n)) ⊎ ((n : ℕ) × (z ≡ negsuc n))
ℤ-cases (pos n) = inl (n, refl)
ℤ-cases (negsuc n) = inr (n, refl)

module _ {C : Type 0} where
  -- What a round does to a buffer of `n` bytes: one that goes on has read some, one that returns has
  -- not done a command, and none is short of fuel.
  abbrev pub Reads : ℕ → Run (Bool × Parser C) → Type 0
  Reads n (ok (go, q)) = (go ≡ true → length q.input < n) × (go ≡ false → q.status_code ≢ done)
  Reads n length_error = Unit {0}
  Reads n assert_failed = Unit {0}
  Reads n out_of_fuel = ⊥

  -- A loop that ends with a command done has read at least one of `n` bytes.
  abbrev pub Ended : ℕ → Run (Parser C) → Type 0
  Ended n (ok q) = q.status_code ≡ done → length q.input < n
  Ended n length_error = Unit {0}
  Ended n assert_failed = Unit {0}
  Ended n out_of_fuel = ⊥

  module _ (string2l : StringToLong) where
    Reads-mono : (m n : ℕ) (r : Run (Bool × Parser C)) → m ≤ n → Reads m r → Reads n r
    Reads-mono m n (ok (go, q)) le h = (λ e. le_trans (h.0 e) le, h.1)
    Reads-mono m n length_error le h = tt
    Reads-mono m n assert_failed le h = tt
    Reads-mono m n out_of_fuel le h = h

    pub Ended-mono : (m n : ℕ) (r : Run (Parser C)) → m ≤ n → Ended m r → Ended n r
    Ended-mono m n (ok q) le h = λ e. le_trans (h e) le
    Ended-mono m n length_error le h = tt
    Ended-mono m n assert_failed le h = tt
    Ended-mono m n out_of_fuel le h = h

    bulk_round-done :
        (p : Parser C)
        → eqb_ℤ p.multibulk_len (pos 0) ≡ true
        → bulk_round string2l p ≡ ok (false, set_parser_status p done parser_ok)
    unfolding bulk_round
    bulk_round-done p h = rw (h, bulk_round)

    bulk_header-Reads : (p : Parser C) → Reads (length p.input) (bulk_header string2l p)
    unfolding bulk_header get_next_num
    bulk_header-Reads p = elim (Option-cases (find_next_separators p.input)) [
      | inl e ↦ ground (arith, e)
      | inr (k, e) ↦
          ground (arith, e, find_next_separators-lt p.input k e, length-drop (suc k) p.input)
    ]

    take_bulk-Reads : (p : Parser C) → Reads (length p.input) (take_bulk string2l p)
    unfolding take_bulk
    take_bulk-Reads p = elim (ℤ-cases p.bulk_len) [
      | inl (n, e) ↦ ground (arith, e, length-drop (n + 2) p.input)
      | inr (n, e) ↦ ground (arith, e)
    ]

    then_take_bulk :
        (n : ℕ) (r : Run (Bool × Parser C))
        → Reads n r
        → Reads n (r >>= λ (go, q). (if go then take_bulk string2l q else ok (false, q)))
    then_take_bulk n (ok (true, q)) h =
        ground
          (arith, take_bulk-Reads q, h.0 refl, Reads-mono (length q.input) n (take_bulk string2l q))
    then_take_bulk n (ok (false, q)) h = (λ e. cc, h.1)
    then_take_bulk n length_error h = tt
    then_take_bulk n assert_failed h = tt
    then_take_bulk n out_of_fuel h = h

    bulk_round-Reads :
        (p : Parser C)
        → eqb_ℤ p.multibulk_len (pos 0) ≡ false
        → Reads (length p.input) (bulk_round string2l p)
    unfolding bulk_round
    bulk_round-Reads p h =
        rw (h, bulk_round)
          (elim (Bool-cases (eqb_ℤ p.bulk_len (negsuc 0))) [
            | inl line ↦
                rw (line, bulk_round)
                  (then_take_bulk (length p.input) (bulk_header string2l p) (bulk_header-Reads p))
            | inr body ↦ rw (body, bulk_round) (take_bulk-Reads p)
          ])

    bulk_loop-step :
        (n fuel : ℕ) (r : Run (Bool × Parser C))
        → Reads n r
        → ((q : Parser C)
            → length q.input < n
            → Ended (suc (length q.input)) (bulk_loop string2l fuel q))
        → Ended n (r >>= λ (go, q). elim go [ true ↦ bulk_loop string2l fuel q | false ↦ ok q ])
    bulk_loop-step n fuel (ok (true, q)) h later =
        Ended-mono (suc (length q.input)) n (bulk_loop string2l fuel q) (h.0 refl)
          (later q (h.0 refl))
    bulk_loop-step n fuel (ok (false, q)) h later = λ d. absurd (h.1 refl d)
    bulk_loop-step n fuel length_error h later = tt
    bulk_loop-step n fuel assert_failed h later = tt
    bulk_loop-step n fuel out_of_fuel h later = h

    pub bulk_loop-Ended :
        (fuel : ℕ) (p : Parser C)
        → length p.input < fuel
        → Ended (suc (length p.input)) (bulk_loop string2l fuel p)
    unfolding bulk_loop
    bulk_loop-Ended zero p h = absurd (omega arith)
    bulk_loop-Ended (suc fuel) p h = elim (Bool-cases (eqb_ℤ p.multibulk_len (pos 0))) [
      | inl over ↦ rw (bulk_round-done p over) (λ d. omega arith)
      | inr more ↦ Ended-mono (length p.input) (suc (length p.input)) _ (omega arith) (
          bulk_loop-step (length p.input) fuel (bulk_round string2l p) (bulk_round-Reads p more)
            (λ q lt. bulk_loop-Ended fuel q (omega arith)))
    ]

    -- The first round of a loop that is in the middle of a command.
    pub bulk_loop-IsInside :
        (fuel : ℕ) (p : Parser C)
        → length p.input < fuel
        → eqb_ℤ p.multibulk_len (pos 0) ≡ false
        → Ended (length p.input) (bulk_loop string2l fuel p)
    unfolding bulk_loop
    bulk_loop-IsInside zero p h more = absurd (omega arith)
    bulk_loop-IsInside (suc fuel) p h more =
        bulk_loop-step (length p.input) fuel (bulk_round string2l p) (bulk_round-Reads p more)
          (λ q lt. bulk_loop-Ended fuel q (omega arith))
