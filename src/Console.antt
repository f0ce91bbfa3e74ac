-- ===== src/Console.antt =====
-- kernel/src/console/console: the text buffer and the terminal.
mod Tests
pub mod Text
pub mod Term
