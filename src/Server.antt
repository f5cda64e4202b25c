-- ===== src/Server.antt =====
-- The server under `dkron/dkron/`: the jobs and executions that it stores, and the handlers of its API
-- that the interface calls.
pub mod Schedule
pub mod Scheduler
pub mod Number
pub mod Cron
pub mod Memory
pub mod Job
pub mod Store
pub mod Leader
pub mod Targets
pub mod Executions
pub mod History
pub mod Runs
pub mod Stats
pub mod Analytics
pub mod Pages
pub mod Diagrams
