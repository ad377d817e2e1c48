-- ===== src/Broker.antt =====
-- src/broker.c: the process that shares one device between its clients.
pub mod Line
pub mod Break
pub mod Token
pub mod Clients
pub mod Control
pub mod Flood
pub mod Paging
pub mod Reopen
pub mod Listen
