-- ===== src/Extraction.antt =====
-- internal/service/service_extraction.go: the life of an extraction request.
pub mod Enqueue
pub mod Progress
pub mod Callbacks
