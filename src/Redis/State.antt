-- ===== src/Redis/State.antt =====
-- The data of pink/include/redis_parser.h: statuses, error codes, settings and the fields of
-- `RedisParser`, and the outcomes of its functions.
use pink.Base.{ℕ, List, [], Option, ℤ, pos, negsuc}
use pink.Redis.Chars.{Bytes, Argv}

-- A call returns, or it ends in a C++ exception, a failed `assert`, or (in the model alone) without
-- fuel.
pub data Run {ℓ} (A : Type ℓ) : Type ℓ where
  ok : A → Run A
  length_error assert_failed out_of_fuel : Run A

infixl 5 ◌>>=◌
abbrev pub ◌>>=◌ {ℓ κ} : {A : Type ℓ} {B : Type κ} → Run A → (A → Run B) → Run B
ok a >>= f = f a
length_error >>= f = length_error
assert_failed >>= f = assert_failed
out_of_fuel >>= f = out_of_fuel

pub data ParserStatus : Type 0 where
  parser_none init_done half done error : ParserStatus

pub data ParserError : Type 0 where
  parser_ok init_error full_error proto_error deal_error complete_error : ParserError

-- `redis_type_`: 0, REDIS_REQ_INLINE, REDIS_REQ_MULTIBULK.
pub data ReqType : Type 0 where
  undecided req_inline req_multibulk : ReqType

-- REDIS_PARSER_REQUEST and REDIS_PARSER_RESPONSE.
pub data ParserType : Type 0 where
  request response : ParserType

-- The callbacks, which may change the object `C` behind `RedisParser::data`; the number is what they
-- return. `none` is the null pointer.
pub record Settings (C : Type 0) : Type 0 where
  pub deal_message : Option (C → Argv → C × ℤ)
  pub complete : Option (C → List Argv → C × ℤ)

-- `input` is the part of `input_buf_` from `cur_pos_` on: `cur_pos_` is `length` less its length.
pub record Parser (C : Type 0) : Type 0 where
  pub settings : Settings C
  pub status_code : ParserStatus
  pub error_code : ParserError
  pub redis_type : ReqType
  pub redis_parser_type : ParserType
  pub multibulk_len : ℤ
  pub bulk_len : ℤ
  pub half_argv : Bytes
  pub argv : Argv
  pub argvs : List Argv
  pub length_ : ℕ
  pub input : Bytes
  pub data_ : C

-- A parser as its constructor leaves it.
abbrev pub fresh : {C : Type 0} → Settings C → C → Parser C
fresh settings c = record {
  settings = settings;
  status_code = parser_none;
  error_code = parser_ok;
  redis_type = undecided;
  redis_parser_type = request;
  multibulk_len = pos 0;
  bulk_len = negsuc 0;
  half_argv = [];
  argv = [];
  argvs = [];
  length_ = 0;
  input = [];
  data_ = c;
}
