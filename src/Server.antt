-- ===== src/Server.antt =====
-- internal/server: what a request is answered, and who may ask.
pub mod Errors
pub mod Middleware
pub mod ComparisonSessions
