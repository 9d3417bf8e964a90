-- ===== src/Admin.antt =====
-- The endpoints under /admin.
pub mod Query
pub mod Keys
pub mod AuditLog
pub mod Logs
