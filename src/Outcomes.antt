-- ===== src/Outcomes.antt =====
-- What the calls of the services (internal/service) end in.
pub mod Missing
pub mod Failure
pub mod Closing
pub mod Values
pub mod Keys
pub mod Stored
pub mod Requests
pub mod Started
pub mod Waiting
pub mod Settling
pub mod Answered
pub mod Created
