-- ===== src/Query.antt =====
-- src/bob/query: what answers a query.
pub mod Gateway
pub mod Assembler
