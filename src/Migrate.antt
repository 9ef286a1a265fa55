-- ===== src/Migrate.antt =====
-- migrate/: migrations under one advisory lock.
pub mod Engine
pub mod Settings
pub mod Migrator
pub mod Locking
pub mod Runs
