-- ===== src/Client.antt =====
-- client/: the connection of a client.
pub mod Worker
