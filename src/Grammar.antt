-- ===== src/Grammar.antt =====
-- internal/parsers/grammar: the annotation grammar of Go doc comments.
pub mod Strings
pub mod Token
pub mod Keywords
pub mod Args
pub mod Lines
pub mod Blocks
pub mod Bodies
pub mod Prose
pub mod Lexer
pub mod Comments
pub mod Block
pub mod Typing
pub mod Extract
pub mod Groups
pub mod Emit
pub mod Parser
pub mod Pipeline
pub mod Walker
pub mod MetaInfo
