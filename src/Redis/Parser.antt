-- ===== src/Redis/Parser.antt =====
-- pink/src/redis_parser.cc: the incremental parser of requests.
-- `slash::string2l` is a parameter: it is given the memory from its pointer on, and a `size_t`.
-- The two `while` loops take the number of unread bytes, plus one, as fuel: each round but the last
-- reads a byte (`Parser/Fuel`). Sizes are taken to stay below 2^31, the range of `int`.
pub mod Fuel
pub mod Total
pub mod Faults
pub mod Inline
use pink.Base.{
  ℕ, zero, suc, ◌+◌, ◌-◌, ◌*◌, ◌%◌, ◌^◌, Bool, true, false, List, [], ◌∷◌, ◌++◌, Option, none, some,
  map, ltb, ◌==◌, if◌then◌else◌, length, take, drop, get_or, not, ℤ, pos, negsuc, ◌+ℤ◌, ◌-ℤ◌, ltb_ℤ,
  eqb_ℤ,
}
use pink.Redis.Chars.{Bytes, Argv, tolower}
use pink.Redis.Args.{split2args}
use pink.Redis.State.{
  Run, ok, length_error, assert_failed, out_of_fuel, ◌>>=◌, ParserStatus, parser_none, init_done,
  half, done, error, ParserError, parser_ok, init_error, full_error, proto_error, deal_error,
  complete_error, undecided, req_inline, req_multibulk, request, response, Settings, Parser,
}

abbrev pub redis_inline_maxlen : ℕ
redis_inline_maxlen = 1024 * 64

-- The distance from `cur_pos_` to the first '\n', if there is one.
unfoldable pub find_next_separators : Bytes → Option ℕ
find_next_separators [] = none
find_next_separators (c ∷ cs) =
    let later = find_next_separators cs in
    if c == b'\n' then some 0 else elim later [ none ↦ none | some k ↦ some (suc k) ]

-- Lower case for the first word of each command.
unfoldable pub lower_name : Argv → Argv
unfolding tolower
lower_name [] = []
lower_name (name ∷ args) = map tolower name ∷ args

-- The statuses in which `ProcessInputBuffer` reads.
abbrev pub accepts_input : ParserStatus → Bool
accepts_input parser_none = false
accepts_input error = false
accepts_input _ = true

module _ {C : Type 0} where
  -- `CacheHalfArgv` moves the unread bytes aside.
  abbrev pub cache_half_argv : Parser C → Parser C
  cache_half_argv p = record p { half_argv = p.input; input = [] }

  abbrev pub set_parser_status : Parser C → ParserStatus → ParserError → Parser C
  set_parser_status p half e = record (cache_half_argv p) { status_code = half; error_code = e }
  set_parser_status p s e = record p { status_code = s; error_code = e }

  abbrev pub fail : Parser C → ParserError → Parser C
  fail p e = set_parser_status p error e

  unfoldable pub redis_parser_init : Parser C → ℕ → Settings C → Parser C
  redis_parser_init p type settings = elim p.status_code [
    | parser_none ↦
        if type == 1
        then set_parser_status (record p { redis_parser_type = request; settings = settings })
            init_done parser_ok
        else if type == 2
        then set_parser_status (record p { redis_parser_type = response; settings = settings })
            init_done parser_ok
        else fail p init_error
    | _ ↦ fail p init_error
  ]

  abbrev pub reset_command_status : Parser C → Parser C
  reset_command_status p = record p {
    redis_type = undecided;
    multibulk_len = pos 0;
    bulk_len = negsuc 0;
    half_argv = [];
  }

  abbrev pub reset_redis_parser : Parser C → Parser C
  reset_redis_parser p = record p { input = []; length_ = 0 }

  -- The words are read from `cur_pos_` to the end of the buffer, and `cur_pos_` then moves behind
  -- the first '\n'.
  unfoldable pub process_inline_buffer : Parser C → Parser C
  process_inline_buffer p = elim (find_next_separators p.input) [
    | none ↦
        if ltb redis_inline_maxlen p.length_
        then fail p full_error
        else set_parser_status p half parser_ok
    | some k ↦
        let rest = drop (suc k) p.input in
        elim (split2args p.input []) [
          | none ↦ fail (record p { argv = []; input = rest }) proto_error
          | some words ↦ set_parser_status (record p { argv = words; input = rest }) done parser_ok
        ]
  ]

  -- The loop over `argvs_` and the call of `Complete`.
  unfoldable pub complete_all : Parser C → Parser C
  unfolding lower_name
  complete_all p = elim p.settings.complete [
    | none ↦ set_parser_status (record p { argvs = [] }) done parser_ok
    | some complete ↦
        let (c, ret) = complete p.data_ (map lower_name p.argvs) in
        if eqb_ℤ ret (pos 0)
        then set_parser_status (record p { argvs = []; data_ = c }) done parser_ok
        else fail (record p { argvs = []; data_ = c }) complete_error
  ]

  -- The command in `argv_` moves to `argvs_` and goes to `DealMessage`; `false` if that refuses it.
  unfoldable pub deal_command : Parser C → Bool × Parser C
  deal_command p = elim p.argv [
    | [] ↦ (true, p)
    | _ ∷ _ ↦
        let moved = record p { argv = []; argvs = p.argvs ++ p.argv ∷ [] } in
        elim p.settings.deal_message [
          | none ↦ (true, moved)
          | some deal ↦
              let (c, ret) = deal p.data_ p.argv in
              if eqb_ℤ ret (pos 0)
              then (true, record moved { data_ = c })
              else (false, fail (record moved { data_ = c }) deal_error)
        ]
  ]

  -- What the loop does behind a command: `false` where it returns.
  unfoldable pub after_command : Parser C → Bool × Parser C
  unfolding deal_command
  after_command p = elim p.status_code [
    | done ↦
        let (accepted, q) = deal_command p in
        if accepted then (true, reset_command_status q) else (false, q)
    | _ ↦ (false, p)
  ]

  abbrev pub decide_type : Parser C → Parser C
  decide_type p = elim p.redis_type [
    | undecided ↦ elim p.input [
      | [] ↦ p
      | c ∷ _ ↦ record p { redis_type = if c == b'*' then req_multibulk else req_inline }
    ]
    | _ ↦ p
  ]

-- `slash::string2l` writes the number that the bytes spell, and says whether they spell one.
abbrev pub StringToLong : Type 0
StringToLong = Bytes → ℕ → Option ℤ

module _ (string2l : StringToLong) where
  -- `GetNextNum(pos, value)` at `pos` = `cur_pos_` + k. The length is a `size_t`.
  unfoldable pub get_next_num : Bytes → ℕ → Run (Option ℤ)
  get_next_num input k =
      if k == 0 then assert_failed else ok (string2l (drop 1 input) ((k + 2 ^ 64 - 2) % 2 ^ 64))

  module _ {C : Type 0} where
    -- The line "*N\r\n"; `true` if the loop over the bulks is to follow.
    unfoldable pub multibulk_header : Parser C → Run (Bool × Parser C)
    unfolding get_next_num
    multibulk_header p = elim (find_next_separators p.input) [
      | none ↦ ok (false, set_parser_status p half parser_ok)
      | some k ↦ get_next_num p.input k >>= elim [
        | none ↦ ok (false, fail p proto_error)
        | some n ↦
            let q = record p { multibulk_len = n; input = drop (suc k) p.input; argv = [] } in
            elim q.input [
              | [] ↦ ok (false, set_parser_status q half parser_ok)
              | _ ∷ _ ↦ ok (true, q)
            ]
      ]
    ]

    -- The line "$N\r\n".
    unfoldable pub bulk_header : Parser C → Run (Bool × Parser C)
    unfolding get_next_num
    bulk_header p = elim (find_next_separators p.input) [
      | none ↦ ok (false, set_parser_status p half parser_ok)
      | some k ↦
          if not (get_or p.input 0 0 == b'$')
          then ok (false, fail p proto_error)
          else get_next_num p.input k >>= elim [
            | none ↦ ok (false, fail p proto_error)
            | some n ↦
                let q = record p { bulk_len = n; input = drop (suc k) p.input } in
                elim q.input [
                  | [] ↦ ok (false, set_parser_status q half parser_ok)
                  | _ ∷ _ ↦ ok (true, q)
                ]
          ]
    ]

    -- The bytes of a bulk. A negative length is a huge `size_t` to the constructor of the string.
    unfoldable pub take_bulk : Parser C → Run (Bool × Parser C)
    take_bulk p =
        if ltb_ℤ (pos (length p.input)) (p.bulk_len +ℤ pos 2)
        then ok (false, set_parser_status p half parser_ok)
        else elim p.bulk_len [
          | negsuc _ ↦ length_error
          | pos n ↦ ok (
            true,
            record p {
              argv = p.argv ++ take n p.input ∷ [];
              input = drop (n + 2) p.input;
              bulk_len = negsuc 0;
              multibulk_len = p.multibulk_len -ℤ pos 1;
            },
          )
        ]

    -- One round of `while (multibulk_len_)`; `false` where the function returns.
    unfoldable pub bulk_round : Parser C → Run (Bool × Parser C)
    bulk_round p =
        if eqb_ℤ p.multibulk_len (pos 0)
        then ok (false, set_parser_status p done parser_ok)
        else if eqb_ℤ p.bulk_len (negsuc 0)
        then (bulk_header p >>= λ (go, q). (if go then take_bulk q else ok (false, q)))
        else take_bulk p

    unfoldable pub bulk_loop : ℕ → Parser C → Run (Parser C)
    bulk_loop zero p = out_of_fuel
    bulk_loop (suc fuel) p =
        bulk_round p >>= λ (go, q). elim go [ true ↦ bulk_loop fuel q | false ↦ ok q ]

    unfoldable pub process_multibulk_buffer : Parser C → Run (Parser C)
    process_multibulk_buffer p =
        if eqb_ℤ p.multibulk_len (pos 0)
        then (multibulk_header p >>= λ (go, q).
            (if go then bulk_loop (suc (length q.input)) q else ok q))
        else bulk_loop (suc (length p.input)) p

    -- One round of the loop over the commands; `false` where the function returns.
    unfoldable pub request_round : Parser C → Run (Bool × Parser C)
    request_round p =
        let q = decide_type p in
        elim q.redis_type [
          | undecided ↦ ok (false, q)
          | req_inline ↦ ok (after_command (process_inline_buffer q))
          | req_multibulk ↦ process_multibulk_buffer q >>= λ r. ok (after_command r)
        ]

    unfoldable pub request_loop : ℕ → Parser C → Run (Parser C)
    request_loop zero p = out_of_fuel
    request_loop (suc fuel) p = elim p.input [
      | [] ↦ ok (complete_all p)
      | _ ∷ _ ↦ request_round p >>= λ (go, q). elim go [ true ↦ request_loop fuel q | false ↦ ok q ]
    ]

    unfoldable pub process_request_buffer : Parser C → Run (Parser C)
    process_request_buffer p = request_loop (suc (length p.input)) p

    unfoldable pub process_input_buffer : Parser C → Bytes → Run (Parser C)
    process_input_buffer p input_buf =
        let full = p.half_argv ++ input_buf in
        let q = record p { input = full; length_ = length full } in
        if accepts_input p.status_code
        then elim p.redis_parser_type [
          | request ↦ process_request_buffer q >>= λ r. ok (reset_redis_parser r)
          | response ↦ ok (reset_redis_parser (set_parser_status q done parser_ok))
        ]
        else ok (fail p init_error)
