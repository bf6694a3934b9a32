-- ===== src/Server.antt =====
-- The HTTP server: src/server.
pub mod Router
pub mod Routes
pub mod Options
pub mod Serve
