-- ===== src/Redis.antt =====
-- The Redis protocol: pink/src/redis_parser.cc, pink/src/redis_cli.cc, pink/src/redis_conn.cc.
pub mod Chars
pub mod Args
pub mod State
pub mod Parser
pub mod Serialize
pub mod Conn
pub mod Reply
pub mod Request
pub mod Stream
mod Tests
mod Examples
