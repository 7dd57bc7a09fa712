-- ===== src/Tests.antt =====
-- Tests on small documents and comments, and each theorem at work on one of them.
pub mod Samples
pub mod Pruning
pub mod Naming
pub mod Lexing
pub mod Parsing
pub mod Bodies
