-- ===== src/Regex.antt =====
-- src/regex_engine.c with its POSIX back end.
pub mod Risk
pub mod Engine
