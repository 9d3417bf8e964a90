-- ===== src/Billing.antt =====
-- internal/billing: the worker that writes the rows of the requests.
pub mod Worker
pub mod Logs
