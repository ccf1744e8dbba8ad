-- ===== src/Repository.antt =====
-- internal/repository: the statements that the services run, one function for each query, over
-- the tables of the world. The constraints are those of sql/migrations on these tables.
pub mod Documents
pub mod Tasks
pub mod Originals
pub mod Owned
pub mod Kinds
pub mod Roles
pub mod Accounts
pub mod Sessions
pub mod Invitations
pub mod Requests
pub mod Keys
pub mod Untouched
