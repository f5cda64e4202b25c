-- ===== src/Actions.antt =====
-- The buttons that send a request to the API and follow its promise: `RunButton`, `ToggleButton`,
-- `BulkRunButton` and `BulkToggleButton` under `dkron/ui/src/jobs/`, and `FullButton` of
-- `dkron/ui/src/jobs/JobShow.tsx`. A button is a state machine: what the user does and how the
-- requests end are its events, in any order that the browser delivers them.
pub mod Button
pub mod Bulk
