-- ===== src/Access.antt =====
-- Who may ask, and what a name or a number that a user gives becomes (internal/service and
-- internal/server).
pub mod Texts
pub mod Inn
pub mod Tokens
pub mod Logins
pub mod Refresh
pub mod Invitations
pub mod Registration
pub mod Guards
