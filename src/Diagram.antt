-- ===== src/Diagram.antt =====
-- `dkron/ui/src/jobs/JobDependencyDiagram.tsx`.
pub mod Defs
pub mod Relatives
pub mod Layout
pub mod Build
pub mod View
pub mod Page
