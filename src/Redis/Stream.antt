-- ===== src/Redis/Stream.antt =====
-- Streams of serialized commands that the parser of pink/src/redis_parser.cc reads in pieces.
pub mod Lines
pub mod Phase
pub mod Bulks
pub mod Command
pub mod Pipeline
pub mod Chunks
