-- ===== src/Redis/Conn/Setup.antt =====
-- pink/src/redis_conn.cc: the constructor of `RedisConn` and its callbacks. The service `C` holds the handle
-- type; `DealMessage` and `ProcessRedisCmds` are virtual, and parameters.
use pink.Base.{ℕ, Bool, true, false, List, some, ℤ, pos, negsuc}
use pink.Redis.Chars.{Argv}
use pink.Redis.State.{Settings, fresh}
use pink.Redis.Parser.{redis_parser_init}
use pink.Redis.Conn.{RedisConn}

pub data HandleType : Type 0 where
  synchronous asynchronous : HandleType

abbrev pub is_async : HandleType → Bool
is_async synchronous = false
is_async asynchronous = true

module _ {C : Type 0} (handle_type : C → HandleType) (deal : C → Argv → C × ℤ)
    (process_redis_cmds : C → List Argv → Bool → C) where
  unfoldable pub parser_deal_message_cb : C → Argv → C × ℤ
  parser_deal_message_cb c argv = elim (handle_type c) [
    | synchronous ↦ deal c argv
    | asynchronous ↦ (c, pos 0)
  ]

  unfoldable pub parser_complete_cb : C → List Argv → C × ℤ
  parser_complete_cb c argvs = (process_redis_cmds c argvs (is_async (handle_type c)), pos 0)

  abbrev pub conn_settings : Settings C
  conn_settings = record {
    deal_message = some parser_deal_message_cb;
    complete = some parser_complete_cb;
  }

  unfoldable pub new_redis_conn : ℕ → C → RedisConn C
  new_redis_conn rbuf_max_len c = record {
    rbuf_len = 0;
    rbuf_max_len = rbuf_max_len;
    msg_peak = pos 0;
    command_len = 0;
    next_read_pos = 0;
    bulk_len = negsuc 0;
    is_reply = false;
    redis_parser = redis_parser_init (fresh conn_settings c) 1 conn_settings;
  }
