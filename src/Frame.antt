-- ===== src/Frame.antt =====
-- The tables change only through the statements of the repository and the publishing of messages:
-- what each of those respects, every service call respects, whatever the outside answers.
-- `Frame.Calls` is about the calls of the repository, the other children about the services.
pub mod Calls
pub mod Extraction
pub mod Worker
pub mod Watchdog
