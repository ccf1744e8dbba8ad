-- ===== src/Worker.antt =====
-- internal/service/service_worker.go: the callbacks of the Python workers.
pub mod Artifacts
pub mod Status
