-- ===== src/Dashboard.antt =====
-- The dashboard, under `dkron/ui/src/dashboard/`.
pub mod Analytics
pub mod Stats
pub mod Charts
pub mod Home
pub mod Outcomes
