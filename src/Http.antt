-- ===== src/Http.antt =====
-- HTTP: pink/src/http_conn.cc.
pub mod Fields
pub mod Head
pub mod Query
pub mod Response
pub mod Request
pub mod Reading
mod Tests
