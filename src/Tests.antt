-- ===== src/Tests.antt =====
-- A small database, and each property at work on it.
mod Data
mod Pipeline
mod Tenants
mod Access
mod Watching
