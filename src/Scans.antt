-- ===== src/Scans.antt =====
-- What a scan of the watchdog (internal/watchdog) does to the tables and the queues.
pub mod Messages
pub mod Tables
pub mod Exclusive
pub mod Attempts
pub mod Delivery
