-- ===== src/Redis/Parser/Total.antt =====
-- `ProcessInputBuffer` of pink/src/redis_parser.cc and the fuel of its loops.
use pink.Base.{
  Bool, ℕ, zero, suc, ◌≤◌, ◌<◌, ◌≡◌, refl, ap, ◌≢◌, ◌⊎◌, inl, inr, [], ◌∷◌, true, false, length,
  length-drop, arith, pos, eqb_ℤ, if◌then◌else◌, Option-cases, Bool-cases,
}
use pink.Redis.Chars.{Bytes}
use pink.Redis.State.{
  Run, ok, length_error, assert_failed, out_of_fuel, ◌>>=◌, ParserType, ReqType, Parser, undecided,
  req_inline, req_multibulk, request, response,
}
use pink.Redis.Parser.{
  StringToLong, reset_redis_parser, find_next_separators, get_next_num, multibulk_header, bulk_loop,
  accepts_input, process_multibulk_buffer, process_inline_buffer, deal_command, after_command,
  decide_type, request_round, request_loop, process_request_buffer, process_input_buffer,
}
use pink.Redis.Parser.Fuel.{
  find_next_separators-lt, Reads, Ended, Ended-mono, bulk_loop-Ended, bulk_loop-IsInside,
}

List-cases : (xs : Bytes) → (xs ≡ []) ⊎ ((x : ℕ) × (ys : Bytes) × (xs ≡ x ∷ ys))
List-cases [] = inl refl
List-cases (x ∷ ys) = inr (x, ys, refl)

type_cases : (t : ParserType) → (t ≡ request) ⊎ (t ≡ response)
type_cases request = inl refl
type_cases response = inr refl

module _ {C : Type 0} (string2l : StringToLong) where
  multibulk_header-Reads : (p : Parser C) → Reads (length p.input) (multibulk_header string2l p)
  unfolding multibulk_header get_next_num
  multibulk_header-Reads p = elim (Option-cases (find_next_separators p.input)) [
    | inl e ↦ ground (arith, e)
    | inr (k, e) ↦
        ground (arith, e, find_next_separators-lt p.input k e, length-drop (suc k) p.input)
  ]

  then_bulk_loop :
      (n : ℕ) (r : Run (Bool × Parser C))
      → Reads n r
      → Ended n
          (r >>= λ (go, q). (if go then bulk_loop string2l (suc (length q.input)) q else ok q))
  then_bulk_loop n (ok (true, q)) h =
      Ended-mono string2l (suc (length q.input)) n _ (h.0 refl)
        (bulk_loop-Ended string2l (suc (length q.input)) q (omega arith))
  then_bulk_loop n (ok (false, q)) h = λ d. absurd (h.1 refl d)
  then_bulk_loop n length_error h = tt
  then_bulk_loop n assert_failed h = tt
  then_bulk_loop n out_of_fuel h = h

  process_multibulk_buffer-Ended :
      (p : Parser C) → Ended (length p.input) (process_multibulk_buffer string2l p)
  unfolding process_multibulk_buffer
  process_multibulk_buffer-Ended p = elim (Bool-cases (eqb_ℤ p.multibulk_len (pos 0))) [
    | inl start ↦
        rw (start, process_multibulk_buffer)
          (then_bulk_loop (length p.input) (multibulk_header string2l p) (multibulk_header-Reads p))
    | inr inside ↦
        rw (inside, process_multibulk_buffer)
          (bulk_loop-IsInside string2l (suc (length p.input)) p (omega arith) inside)
  ]

  process_inline_buffer-Ended :
      (p : Parser C) → Ended (length p.input) (ok (process_inline_buffer p))
  unfolding process_inline_buffer
  process_inline_buffer-Ended p = elim (Option-cases (find_next_separators p.input)) [
    | inl e ↦ ground (arith, e)
    | inr (k, e) ↦
        ground (arith, e, find_next_separators-lt p.input k e, length-drop (suc k) p.input)
  ]

  -- A round that goes on has read some of `n` bytes.
  abbrev Advances : ℕ → Run (Bool × Parser C) → Type 0
  Advances n (ok (go, q)) = go ≡ true → length q.input < n
  Advances n length_error = Unit {0}
  Advances n assert_failed = Unit {0}
  Advances n out_of_fuel = ⊥

  after_command-Advances :
      (n : ℕ) (p : Parser C) → Ended n (ok p) → Advances n (ok (after_command p))
  unfolding after_command deal_command
  after_command-Advances n p h = ground (arith, h)

  then_after_command :
      (n : ℕ) (r : Run (Parser C)) → Ended n r → Advances n (r >>= λ q. ok (after_command q))
  then_after_command n (ok q) h = after_command-Advances n q h
  then_after_command n length_error h = tt
  then_after_command n assert_failed h = tt
  then_after_command n out_of_fuel h = h

  decide_type-input : (p : Parser C) → (decide_type p).input ≡ p.input
  decide_type-input p = ground arith

  unread_le : (p : Parser C) → length (decide_type p).input ≤ length p.input
  unread_le p = omega (arith, ap length (decide_type-input p))

  round_of :
      (p : Parser C) (t : ReqType)
      → (decide_type p).redis_type ≡ t
      → Advances (length p.input) (request_round string2l p)
  unfolding request_round
  round_of p undecided e = rw (e, request_round) (λ d. cc)
  round_of p req_inline e =
      rw (e, request_round)
        (after_command-Advances (length p.input) (process_inline_buffer (decide_type p)) (
          Ended-mono string2l _ _ (ok (process_inline_buffer (decide_type p))) (unread_le p)
            (process_inline_buffer-Ended (decide_type p))))
  round_of p req_multibulk e =
      rw (e, request_round)
        (then_after_command (length p.input) (process_multibulk_buffer string2l (decide_type p)) (
          Ended-mono string2l _ _ _ (unread_le p) (process_multibulk_buffer-Ended (decide_type p))))

  then_loop :
      (n fuel : ℕ) (r : Run (Bool × Parser C))
      → Advances n r
      → ((q : Parser C) → length q.input < n → request_loop string2l fuel q ≢ out_of_fuel)
      → (r >>= λ (go, q). elim go [ true ↦ request_loop string2l fuel q | false ↦ ok q ])
        ≢ out_of_fuel
  then_loop n fuel (ok (true, q)) h later = later q (h refl)
  then_loop n fuel (ok (false, q)) h later = λ e. cc
  then_loop n fuel length_error h later = λ e. cc
  then_loop n fuel assert_failed h later = λ e. cc
  then_loop n fuel out_of_fuel h later = absurd h

  request_loop-ne-out_of_fuel :
      (fuel : ℕ) (p : Parser C) → length p.input < fuel → request_loop string2l fuel p ≢ out_of_fuel
  unfolding request_loop
  request_loop-ne-out_of_fuel zero p h = absurd (omega arith)
  request_loop-ne-out_of_fuel (suc fuel) p h = elim (List-cases p.input) [
    | inl e ↦ rw (e, request_loop) (λ z. cc)
    | inr (x, xs, e) ↦
        rw (e, request_loop)
          (then_loop (length p.input) fuel (request_round string2l p)
            (round_of p (decide_type p).redis_type refl)
            (λ q lt. request_loop-ne-out_of_fuel fuel q (omega arith)))
  ]

  then_reset :
      (r : Run (Parser C)) → r ≢ out_of_fuel → (r >>= λ q. ok (reset_redis_parser q)) ≢ out_of_fuel
  then_reset (ok q) h = λ e. cc
  then_reset length_error h = λ e. cc
  then_reset assert_failed h = λ e. cc
  then_reset out_of_fuel h = h

-- `ProcessInputBuffer` ends on every input, whatever the state of the parser, the callbacks and
-- `string2l`: the fuel of its loops is never used up.
pub process_input_buffer-ne-out_of_fuel :
    {C : Type 0} (string2l : StringToLong) (p : Parser C) (input_buf : Bytes)
    → process_input_buffer string2l p input_buf ≢ out_of_fuel
unfolding process_input_buffer process_request_buffer
process_input_buffer-ne-out_of_fuel string2l p input_buf =
    elim (Bool-cases (accepts_input p.status_code)) [
      | inr refused ↦ rw (refused, process_input_buffer) (λ e. cc)
      | inl accepted ↦
          rw (accepted, process_input_buffer)
            (elim (type_cases p.redis_parser_type) [
              | inr e ↦ rw (e, process_input_buffer) (λ z. cc)
              | inl e ↦
                  rw (e, process_input_buffer)
                    (then_reset string2l _ (request_loop-ne-out_of_fuel string2l _ _ (omega arith)))
            ])
    ]
