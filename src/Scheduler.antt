-- ===== src/Scheduler.antt =====
-- apps/scheduler: the process that keeps the counters in step with the tables.
pub mod Reconcile
pub mod Prewarm
pub mod Agreement
pub mod Pending
pub mod Examples
pub mod Mail
pub mod Html
pub mod Notification
