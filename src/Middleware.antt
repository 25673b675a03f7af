-- ===== src/Middleware.antt =====
-- internal/middleware: the client's address, the bearer token, the log and the headers.
pub mod ClientIp
pub mod Bearer
pub mod Recorder
