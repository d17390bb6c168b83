-- ===== src/Redis/Parser/Faults.antt =====
-- Inputs on which the parser of pink/src/redis_parser.cc fails.
use pink.Base.{◌≡◌, arith}
use pink.Redis.Chars.{Bytes}
use pink.Redis.State.{ok, Parser, error, init_error}
use pink.Redis.Parser.{StringToLong, process_input_buffer}

module _ {C : Type 0} (string2l : StringToLong) where
  -- Once a call has failed, every later call fails with `kRedisParserInitError`, and changes nothing
  -- but the error code.
  pub process_input_buffer-error :
      (p : Parser C) (input_buf : Bytes)
      → p.status_code ≡ error
      → process_input_buffer string2l p input_buf ≡ ok (record p { error_code = init_error })
  unfolding process_input_buffer
  process_input_buffer-error p input_buf e = ground (arith, e)
