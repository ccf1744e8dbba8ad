-- ===== src/Tenants.antt =====
-- The isolation of organizations from each other in the services that users call: what a caller is
-- answered, and what a call changes.
pub mod View
pub mod Local
pub mod Answers
pub mod Reads
pub mod DirectoryReads
pub mod Requests
pub mod Writes
pub mod DirectoryWrites
pub mod TaskWrites
pub mod Quiet
pub mod DirectoryQuiet
pub mod Changes
pub mod Descendants
pub mod Deletions
pub mod Sessions
