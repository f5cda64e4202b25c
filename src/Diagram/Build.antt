-- ===== src/Diagram/Build.antt =====
-- `dkron/ui/src/jobs/JobDependencyDiagram.tsx`, lines 201 to 325: `buildDependencyGraph`.
pub mod Relatives
pub mod Drawn
pub mod Edges
pub mod Correct
pub mod Order
pub mod Ladder
use phan_tan_dkron_giuaky.Common.{
  ℕ, Option, some, none, List, [], ◌∷◌, ◌++◌, String, ℤ, pos, put, add_all, string_eq, ◌>>=◌,
}
use phan_tan_dkron_giuaky.Diagram.Defs.{Job, JobMap, DependencyNode, DependencyEdge}
use phan_tan_dkron_giuaky.Diagram.Relatives.Walk.{job_map, find_ancestors, find_descendants}
use phan_tan_dkron_giuaky.Diagram.Relatives.Correct.{depth_bound, new_walk}
use phan_tan_dkron_giuaky.Diagram.Layout.Place.{
  Groups, Frame, Drawing, group_jobs, sorted_levels, min_level, widest, draw, edges_of,
}

pub record Graph : Type 0 where
  pub nodes : List DependencyNode
  pub edges : List DependencyEdge

-- `relatedJobs` and `jobLevels` after both searches
pub record Related : Type 0 where
  pub names : List String
  pub levels : List (String × ℤ)

unfoldable pub find_related : JobMap → String → Option Related
find_related m current = do
  (ancestors, up) ←
      find_ancestors (depth_bound m) m current (pos 0) (new_walk (put [] current (pos 0)))
  (descendants, down) ← find_descendants (depth_bound m) m current (pos 0) (new_walk up.levels)
  some (record { names = add_all [] (current ∷ ancestors ++ descendants); levels = down.levels })

unfoldable pub frame_of : JobMap → String → Groups → Frame
frame_of m current groups = record {
  jobs = m;
  current = current;
  groups = groups;
  min_level = min_level (sorted_levels groups);
  max_width = widest groups 0 (sorted_levels groups);
}

-- The layout of the related jobs.
unfoldable pub layout : JobMap → String → Related → Drawing
layout m current related =
    let groups = group_jobs related.levels related.names in
    draw (frame_of m current groups) (sorted_levels groups)

unfoldable pub graph_of : JobMap → String → Related → Graph
graph_of m current related =
    let drawing = layout m current related in
    record {
      nodes = drawing.nodes;
      edges = edges_of m related.names drawing.positions [] related.names;
    }

-- `none` only where the fuel of a search runs out.
unfoldable pub build_dependency_graph : Job → List Job → Option Graph
build_dependency_graph current all_jobs = do
  let m = job_map all_jobs
  related ← find_related m current.name
  some (graph_of m current.name related)
