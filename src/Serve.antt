-- ===== src/Serve.antt =====
-- serve/: an HTTP server on one or two listeners, with operational endpoints.
pub mod Settings
pub mod Ops
pub mod Server
pub mod Options
pub mod Probes
pub mod Listening
pub mod Running
pub mod Construction
