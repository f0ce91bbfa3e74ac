-- ===== src/Command.antt =====
-- components/programs/command: the command interpreter.
mod Tests
pub mod Environment
pub mod Lexer
pub mod Batch
pub mod Parser
