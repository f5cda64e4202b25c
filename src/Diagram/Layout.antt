-- ===== src/Diagram/Layout.antt =====
-- `dkron/ui/src/jobs/JobDependencyDiagram.tsx`, lines 255 to 322: the related jobs grouped by
-- level, the position and the node of each, and the edges.
pub mod Place
pub mod Slots
pub mod Apart
pub mod Rows
pub mod Groups
pub mod Nodes
