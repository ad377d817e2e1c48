-- ===== src/Text.antt =====
-- src/util: base64, escapes, string buffers, key names; src/monitor_crlf.h and src/monitor_esc.h.
pub mod Base64
pub mod Escape
pub mod StrBuf
pub mod Keys
pub mod Monitor
