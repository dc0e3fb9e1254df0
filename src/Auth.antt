-- ===== src/Auth.antt =====
-- Authentication: the code under auth.
pub mod Users
pub mod Service
