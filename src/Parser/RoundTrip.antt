-- ===== src/Parser/RoundTrip.antt =====
-- Instructions written as client-side/query_format.md says are read back by parse_instr
-- (server-side/parser/parser.c), whatever the names and values, up to 127 columns.
pub mod Idents
pub mod Sel
pub mod Pairs
pub mod CrtAdd
