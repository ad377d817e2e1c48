-- ===== src/Client.antt =====
-- src/client.c: the connection of one client.
pub mod Feed
pub mod Queue
