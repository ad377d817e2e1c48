-- ===== src/Link.antt =====
-- src/links: the write queue that every device link defers its output through.
pub mod WriteQueue
