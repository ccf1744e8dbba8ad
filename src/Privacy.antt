-- ===== src/Privacy.antt =====
-- Which text leaves the service: the messages that a call publishes, and where their paths come
-- from. A request that asks for anonymization has its questions put to the anonymized artifact.
pub mod Sends
pub mod Sources
pub mod Callbacks
