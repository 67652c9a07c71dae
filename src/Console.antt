-- ===== src/Console.antt =====
-- The console's language, from the source_reader of src/testdriver.cpp. Console/Scanner has its tokens
-- and Console/Reader its ASTs.
mod Scanner
mod Reader
mod Names
mod Declared
mod Tests
pub mod Tokens
