-- ===== src/Pb.antt =====
-- The length-prefixed protocol: pink/src/pb_conn.cc and pink/src/pb_cli.cc.
pub mod Frame
pub mod Conn
pub mod Framing
pub mod Reply
pub mod Sending
pub mod Overflow
pub mod Resize
pub mod Client
mod Tests
