-- ===== src/Diagram/Relatives.antt =====
-- `dkron/ui/src/jobs/JobDependencyDiagram.tsx`: `findAncestors` and `findDescendants`. The
-- variables that both closures change, the set of processed names and `jobLevels`, are passed on as
-- a `Walk`. Each call takes fuel for the depth of the recursion; `none` means that it ran out.
pub mod Walk
pub mod Fuel
pub mod Spec
pub mod Steps
pub mod Ancestors
pub mod Descendants
pub mod Correct
pub mod Ladder
