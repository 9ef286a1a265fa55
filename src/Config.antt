-- ===== src/Config.antt =====
-- config/: a configuration merged from defaults, files, the environment and flags in one order.
pub mod Keys
pub mod Failure
pub mod Library
pub mod Settings
pub mod Load
pub mod Watch
pub mod Guard
