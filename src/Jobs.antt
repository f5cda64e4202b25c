-- ===== src/Jobs.antt =====
-- The pages of the jobs under `dkron/ui/src/jobs/`, the list of running jobs of
-- `dkron/ui/src/executions/BusyList.tsx`, and the fields of both.
pub mod Fields
pub mod Full
pub mod Show
pub mod Edit
pub mod Lists
