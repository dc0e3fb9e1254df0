-- ===== src/Server.antt =====
-- The server: the code under server.
pub mod Connecting
