-- ===== src/Opamp.antt =====
-- The collector under remote control, opamp: files, reloading with a rollback, and the remote
-- configurations that the server sends.
pub mod Files
pub mod Reload
pub mod Manager
mod Tests
